-- ===== src/Connection/LoginFrame.antt =====
-- What the login leaves alone: it asks for a nonce and answers it, and only the request number of the
-- connection changes.
use mongo_hhvm_driver.Base.{Option, none, some}
use mongo_hhvm_driver.CLib.{Bytes}
use mongo_hhvm_driver.Types.{Mechanism, Connection, ServerDef, ServerOptions}
use mongo_hhvm_driver.Str.{Str}
use mongo_hhvm_driver.Hash.Create.{Md5}
use mongo_hhvm_driver.Connection.Effect.{Io, ◌>>=◌, lift}
use mongo_hhvm_driver.Connection.Keeps.{
  Keeps, bind_Keeps, get_con-Keeps, set_con-Keeps, return-Keeps, fail-Keeps, lift-Keeps,
  attempt-Keeps,
}
use mongo_hhvm_driver.Connection.Kept.{IsKept}
use mongo_hhvm_driver.Connection.Frame.{send_packet-Keeps}
use mongo_hhvm_driver.Connection.Buildinfo.{getnonce}
use mongo_hhvm_driver.Connection.Login.{
  authenticate_cmd, authenticate_mongodb_cr, authenticate_mongodb_x509, login_cr, authdb_or_db,
  authenticate,
}

module _ {W : Type 0} (P : Connection → Type 0) (io : Io W) (md5 : Md5) (options : ServerOptions)
    (kept : IsKept P) where
  getnonce-Keeps : Keeps P (getnonce io options)
  unfolding getnonce
  getnonce-Keeps = get_con-Keeps P _ λ con h. bind_Keeps P _ _ (lift-Keeps P _) λ packet.
      bind_Keeps P _ _ (set_con-Keeps P _ (kept.reqid con h)) λ counted.
        bind_Keeps P _ _ (send_packet-Keeps P io options packet)
          λ buffer. bind_Keeps P _ _ (lift-Keeps P _) λ nonce. attempt-Keeps P _

  authenticate_cmd-Keeps :
      (database username : Bytes) (packet : Str)
      → Keeps P (authenticate_cmd io md5 options database username packet)
  unfolding authenticate_cmd
  authenticate_cmd-Keeps database username packet =
      bind_Keeps P _ _ (send_packet-Keeps P io options packet) λ buffer.
        bind_Keeps P _ _ (lift-Keeps P _)
          λ ok. bind_Keeps P _ _ (lift-Keeps P _) λ errmsg. attempt-Keeps P _

  authenticate_mongodb_cr-Keeps :
      (database username password nonce : Bytes)
      → Keeps P (authenticate_mongodb_cr io md5 options database username password nonce)
  unfolding authenticate_mongodb_cr
  authenticate_mongodb_cr-Keeps database username password nonce = get_con-Keeps P _ λ con h.
      bind_Keeps P _ _ (lift-Keeps P _) λ packet.
        bind_Keeps P _ _ (set_con-Keeps P _ (kept.reqid con h))
          λ counted. authenticate_cmd-Keeps database username packet

  authenticate_mongodb_x509-Keeps :
      (database username : Bytes)
      → Keeps P (authenticate_mongodb_x509 io md5 options database username)
  unfolding authenticate_mongodb_x509
  authenticate_mongodb_x509-Keeps database username = get_con-Keeps P _ λ con h.
      bind_Keeps P _ _ (lift-Keeps P _) λ packet.
        bind_Keeps P _ _ (set_con-Keeps P _ (kept.reqid con h))
          λ counted. authenticate_cmd-Keeps database username packet

  login_cr-Keeps :
      (def : ServerDef) (db username password : Option Bytes)
      → Keeps P (login_cr io md5 options def db username password)
  login_cr-Keeps def (some db) (some username) (some password) =
      bind_Keeps P _ _ getnonce-Keeps λ nonce.
        bind_Keeps P _ _ (lift-Keeps P _)
          λ database. authenticate_mongodb_cr-Keeps database username password nonce
  login_cr-Keeps def none username password = return-Keeps P _
  login_cr-Keeps def (some db) none password = return-Keeps P _
  login_cr-Keeps def (some db) (some username) none = return-Keeps P _

  x509-Keeps :
      (def : ServerDef)
      → Keeps P (
          lift (authdb_or_db def) >>= λ database. lift def.username >>= λ username.
          authenticate_mongodb_x509 io md5 options database username)
  x509-Keeps def = bind_Keeps P _ _ (lift-Keeps P _) λ database.
      bind_Keeps P _ _ (lift-Keeps P _)
        λ username. authenticate_mongodb_x509-Keeps database username

  by_mechanism-Keeps :
      (mechanism : Mechanism) (def : ServerDef)
      → Keeps P (authenticate io md5 options (record def { mechanism = mechanism }))
  unfolding authenticate
  by_mechanism-Keeps Mechanism.mongodb_cr def =
      login_cr-Keeps (record def { mechanism = Mechanism.mongodb_cr }) def.db def.username
        def.password
  by_mechanism-Keeps Mechanism.mongodb_x509 def =
      x509-Keeps (record def { mechanism = Mechanism.mongodb_x509 })
  by_mechanism-Keeps Mechanism.gssapi def = fail-Keeps P _ _
  by_mechanism-Keeps Mechanism.plain def = fail-Keeps P _ _
  by_mechanism-Keeps Mechanism.scram_sha1 def = fail-Keeps P _ _

  pub authenticate-Keeps : (def : ServerDef) → Keeps P (authenticate io md5 options def)
  authenticate-Keeps def = by_mechanism-Keeps def.mechanism def
