-- ===== src/Connection/Buildinfo.antt =====
-- `mongo_connection_get_server_version` and `mongo_connection_getnonce`.
use mongo_hhvm_driver.Base.{Option, none, some}
use mongo_hhvm_driver.CLib.{Bytes, codes}
use mongo_hhvm_driver.Types.{ServerOptions}
use mongo_hhvm_driver.Bson.Write.{get_reqid}
use mongo_hhvm_driver.Bson.Fields.{find_as_string}
use mongo_hhvm_driver.Bson.Packets.{create_buildinfo_packet, create_getnonce_packet}
use mongo_hhvm_driver.Connection.Effect.{Attempt, Io, Run, ◌>>=◌, attempt, lift, get_con, set_con}
use mongo_hhvm_driver.Connection.Send.{send_packet}
use mongo_hhvm_driver.Connection.Version.{store_version}

abbrev pub nonce_or : Option Bytes → Attempt Bytes
nonce_or none = Attempt.failed (some (codes "Couldn't find the nonce field"))
nonce_or (some nonce) = Attempt.done nonce

module _ {W : Type 0} (io : Io W) (options : ServerOptions) where
  -- mongo_connection_get_server_version
  unfoldable pub get_server_version : Run W (Unit {0})
  unfolding create_buildinfo_packet get_reqid send_packet store_version
  get_server_version = do
    con ← get_con
    packet ← lift (create_buildinfo_packet con)
    counted ← set_con (get_reqid con)
    buffer ← send_packet io options packet
    asked ← get_con
    updated ← lift (store_version buffer asked)
    set_con updated

  -- mongo_connection_getnonce
  unfoldable pub getnonce : Run W Bytes
  unfolding create_getnonce_packet get_reqid send_packet find_as_string
  getnonce = do
    con ← get_con
    packet ← lift (create_getnonce_packet con)
    counted ← set_con (get_reqid con)
    buffer ← send_packet io options packet
    nonce ← lift (find_as_string buffer 4 (codes "nonce"))
    attempt (some (nonce_or nonce))
