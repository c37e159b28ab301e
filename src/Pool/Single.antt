-- ===== src/Pool/Single.antt =====
-- `mongo_get_connection_single`. A failure is NULL with the message.
use mongo_hhvm_driver.Base.{Bool, true, false, Option, none, some, if◌then◌else◌}
use mongo_hhvm_driver.CLib.{Bytes, codes}
use mongo_hhvm_driver.Types.{Connection, ServerDef, ServerOptions}
use mongo_hhvm_driver.Hash.Create.{create_hash}
use mongo_hhvm_driver.Manager.Registry.{
  Blacklisted, connection_find_by_hash, connection_register, blacklist_find_by_hash,
  blacklist_deregister,
}
use mongo_hhvm_driver.Connection.Effect.{Attempt}
use mongo_hhvm_driver.Connection.Create.{create}
use mongo_hhvm_driver.Connection.Ping.{ping_check, ping}
use mongo_hhvm_driver.Pool.Establish.{establish}
use mongo_hhvm_driver.Pool.Effect.{
  Setup, Act, ◌>>=◌, return, get_manager, set_manager, now, run_on, make, destroy_broken,
  deregister_connection, run_registered,
}

module _ {W : Type 0} (setup : Setup W) (options : ServerOptions) where
  -- Whether the connection attempt goes on: a server that was blacklisted long enough ago is taken
  -- off the list.
  abbrev pub check_blacklisted : Bytes → Option Blacklisted → Act W Bool
  check_blacklisted hash none = return true
  check_blacklisted hash (some blacklisted) = do
    start ← now setup.io
    manager ← get_manager
    let removed = set_manager (blacklist_deregister manager hash).0 >>= λ _. return true
    if ping_check setup.intervals blacklisted.last_ping start then removed else return false

  -- The result of the ping: a connection that fails is deregistered.
  abbrev pub after_ping : Attempt (Unit {0}) × Connection → Act W (Attempt Connection)
  after_ping (Attempt.done ok, con) = return (Attempt.done con)
  after_ping (Attempt.failed e, con) = do
    removed ← deregister_connection setup con
    return (Attempt.failed e)

  -- A connection is registered once it was pinged, and counts as connected.
  abbrev pub after_establish : Attempt (Unit {0}) × Connection → Act W (Attempt Connection)
  after_establish (Attempt.done ok, con) = do
    let open_con = record con { connected = true }
    manager ← get_manager
    registered ← set_manager (connection_register manager open_con)
    return (Attempt.done open_con)
  after_establish (Attempt.failed e, con) = do
    destroyed ← destroy_broken setup con
    return (Attempt.failed e)

  abbrev pub after_create : ServerDef → Attempt Connection → Act W (Attempt Connection)
  after_create server (Attempt.failed e) = return (Attempt.failed e)
  after_create server (Attempt.done con) = do
    result ← run_on con (establish setup options server)
    after_establish result

  -- The connection of the registry, or a new one
  abbrev pub connect_known :
      ServerDef → Bytes → Bool → Option Connection → Act W (Attempt Connection)
  connect_known server hash true none = return (Attempt.failed none)
  connect_known server hash true (some con) = return (Attempt.done con)
  connect_known server hash false (some con) = do
    result ← run_registered setup con (ping setup.io setup.intervals options)
    after_ping result
  connect_known server hash false none = do
    created ← make (λ manager w. create setup.io manager hash server options w)
    after_create server created

  abbrev pub connect_if : ServerDef → Bytes → Bool → Bool → Act W (Attempt Connection)
  connect_if server hash dont_connect false =
      return
        (Attempt.failed (some (codes "Previous connection attempts failed, server blacklisted")))
  connect_if server hash dont_connect true = do
    manager ← get_manager
    connect_known server hash dont_connect (connection_find_by_hash manager hash)

  -- mongo_get_connection_single; the flag is MONGO_CON_FLAG_DONT_CONNECT.
  unfoldable pub get_connection_single : ServerDef → Bool → Act W (Attempt Connection)
  unfolding create_hash blacklist_find_by_hash blacklist_deregister connection_find_by_hash
      connection_register ping_check ping create establish destroy_broken deregister_connection
      run_registered
  get_connection_single server dont_connect = do
    let hash = create_hash setup.md5 setup.pid server
    manager ← get_manager
    attempt ← check_blacklisted hash (blacklist_find_by_hash manager hash)
    connect_if server hash dont_connect attempt
