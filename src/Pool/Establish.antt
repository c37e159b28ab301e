-- ===== src/Pool/Establish.antt =====
-- What `mongo_get_connection_single` does on a new connection: isMaster, the version, the login and
-- the first ping.
use mongo_hhvm_driver.Base.{Option, none}
use mongo_hhvm_driver.CLib.{Bytes}
use mongo_hhvm_driver.Types.{NodeType, ServerDef, ServerOptions}
use mongo_hhvm_driver.Connection.Effect.{Run, ◌>>=◌, return, fail, get_con}
use mongo_hhvm_driver.Connection.Ping.{ping}
use mongo_hhvm_driver.Connection.Decode.{Code}
use mongo_hhvm_driver.Connection.Ismaster.{ismaster}
use mongo_hhvm_driver.Connection.Buildinfo.{get_server_version}
use mongo_hhvm_driver.Pool.Effect.{Setup}

-- `if (!mongo_connection_ismaster(...))`: every return value but 0 passes.
abbrev pub ismaster_passes : {W : Type 0} → Code → Option Bytes → Run W (Unit {0})
ismaster_passes Code.error e = fail e
ismaster_passes _ e = return tt

-- An arbiter has no users.
abbrev pub login_unless_arbiter :
    {W : Type 0} → Setup W → ServerOptions → ServerDef → NodeType → Run W (Unit {0})
login_unless_arbiter setup options server NodeType.arbiter = return tt
login_unless_arbiter setup options server _ =
    setup.authenticate options server >>= λ login. return tt

unfoldable pub establish : {W : Type 0} → Setup W → ServerOptions → ServerDef → Run W (Unit {0})
unfolding ismaster get_server_version ping
establish setup options server = do
  result ← ismaster setup.io setup.intervals options none
  passed ← ismaster_passes result.code result.error_message
  version ← get_server_version setup.io options
  con ← get_con
  login ← login_unless_arbiter setup options server con.connection_type
  ping setup.io setup.intervals options
