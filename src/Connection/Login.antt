-- ===== src/Connection/Login.antt =====
-- `mongo_connection_authenticate` with MONGODB-CR and MONGODB-X509. MD5 is a parameter.
use mongo_hhvm_driver.Base.{Option, none, some, ◌++◌}
use mongo_hhvm_driver.CLib.{Bytes, codes}
use mongo_hhvm_driver.Types.{Mechanism, ServerDef, ServerOptions}
use mongo_hhvm_driver.Hash.Create.{Md5}
use mongo_hhvm_driver.Str.{Str}
use mongo_hhvm_driver.Bson.Write.{get_reqid}
use mongo_hhvm_driver.Bson.Fields.{find_as_string, find_as_double}
use mongo_hhvm_driver.Bson.Packets.{create_authenticate_packet}
use mongo_hhvm_driver.Connection.Effect.{
  Attempt, Io, Run, ◌>>=◌, return, fail, attempt, lift, get_con, set_con,
}
use mongo_hhvm_driver.Connection.Send.{send_packet, in_256}
use mongo_hhvm_driver.Connection.Buildinfo.{getnonce}

-- The return values 1 and 2; 0 is a failure.
pub data Login : Type 0 where
  authenticated not_needed : Login

-- mongo_authenticate_hash_user_password
unfoldable pub hash_user_password : Md5 → Bytes → Bytes → Bytes
hash_user_password md5 username password = md5.hex (username ++ (codes ":mongo:" ++ password))

-- The key that answers a nonce
unfoldable pub answer_key : Md5 → Bytes → Bytes → Bytes → Bytes
unfolding hash_user_password
answer_key md5 nonce username password =
    md5.hex (nonce ++ (username ++ hash_user_password md5 username password))

login_failed : Bytes → Bytes → Bytes → Bytes
login_failed database username errmsg =
    codes "Authentication failed on database '"
    ++ (database ++ (codes "' with username '" ++ (username ++ (codes "': " ++ errmsg))))

-- `ok` is only logged: the login failed if there is an errmsg.
unfoldable pub login_result : Bytes → Bytes → Option Bytes → Attempt Login
unfolding login_failed
login_result database username none = Attempt.done authenticated
login_result database username (some errmsg) =
    Attempt.failed (in_256 (login_failed database username errmsg))

abbrev pub authdb_or_db : ServerDef → Option Bytes
authdb_or_db def = elim def.authdb [ none ↦ def.db | some db ↦ some db ]

module _ {W : Type 0} (io : Io W) (md5 : Md5) (options : ServerOptions) where
  -- mongo_connection_authenticate_cmd
  unfoldable pub authenticate_cmd : Bytes → Bytes → Str → Run W Login
  unfolding send_packet find_as_double find_as_string login_result
  authenticate_cmd database username packet = do
    buffer ← send_packet io options packet
    ok ← lift (find_as_double buffer 4 (codes "ok"))
    errmsg ← lift (find_as_string buffer 4 (codes "errmsg"))
    attempt (some (login_result database username errmsg))

  -- mongo_connection_authenticate_mongodb_cr
  unfoldable pub authenticate_mongodb_cr : Bytes → Bytes → Bytes → Bytes → Run W Login
  unfolding answer_key create_authenticate_packet get_reqid authenticate_cmd
  authenticate_mongodb_cr database username password nonce = do
    con ← get_con
    packet ← lift (
        create_authenticate_packet con none database username (some nonce)
          (some (answer_key md5 nonce username password)))
    counted ← set_con (get_reqid con)
    authenticate_cmd database username packet

  -- mongo_connection_authenticate_mongodb_x509
  unfoldable pub authenticate_mongodb_x509 : Bytes → Bytes → Run W Login
  unfolding create_authenticate_packet get_reqid authenticate_cmd
  authenticate_mongodb_x509 database username = do
    con ← get_con
    packet ←
        lift
          (create_authenticate_packet con (some (codes "MONGODB-X509")) database username none none)
    counted ← set_con (get_reqid con)
    authenticate_cmd database username packet

  -- MONGODB-CR with all that it needs; the database is `authdb` or, if that is NULL, `db`.
  abbrev pub login_cr : ServerDef → Option Bytes → Option Bytes → Option Bytes → Run W Login
  login_cr def (some db) (some username) (some password) = do
    nonce ← getnonce io options
    database ← lift (authdb_or_db def)
    authenticate_mongodb_cr database username password nonce
  login_cr def _ _ _ = return not_needed

  -- mongo_connection_authenticate. MONGODB-X509 takes the strings as they are, and a NULL is
  -- undefined behaviour.
  unfoldable pub authenticate : ServerDef → Run W Login
  unfolding getnonce authenticate_mongodb_cr authenticate_mongodb_x509
  authenticate def = elim def.mechanism [
    | Mechanism.mongodb_cr ↦ login_cr def def.db def.username def.password
    | Mechanism.mongodb_x509 ↦ do
      database ← lift (authdb_or_db def)
      username ← lift def.username
      authenticate_mongodb_x509 database username
    | _ ↦ fail (
        some (
          codes
            "Only MongoDB-CR and MONGODB-X509 authentication mechanisms is supported by this build"))
  ]
