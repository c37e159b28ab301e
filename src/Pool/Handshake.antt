-- ===== src/Pool/Handshake.antt =====
-- What the handshake of a new connection leaves alone: the hash.
use mongo_hhvm_driver.Base.{Option, none, ◌≡◌}
use mongo_hhvm_driver.CLib.{Bytes}
use mongo_hhvm_driver.Types.{NodeType, Connection, ServerDef, ServerOptions}
use mongo_hhvm_driver.Bson.Write.{get_reqid}
use mongo_hhvm_driver.Connection.Effect.{◌>>=◌, return}
use mongo_hhvm_driver.Connection.Keeps.{Keeps, bind_Keeps, get_con-Keeps, return-Keeps, fail-Keeps}
use mongo_hhvm_driver.Connection.Kept.{IsKept}
use mongo_hhvm_driver.Connection.Frame.{ping-Keeps, ismaster-Keeps, get_server_version-Keeps}
use mongo_hhvm_driver.Connection.Decode.{Code}
use mongo_hhvm_driver.Pool.Effect.{Setup}
use mongo_hhvm_driver.Pool.Establish.{ismaster_passes, login_unless_arbiter, establish}

-- The connection has this hash.
abbrev pub HasHash : Bytes → Connection → Type 0
HasHash hash con = con.hash ≡ hash

pub HasHash-IsKept : (hash : Bytes) → IsKept (HasHash hash)
unfolding get_reqid
HasHash-IsKept hash = record {
  reqid = λ con h. h;
  pinged = λ con t ms h. h;
  wire = λ con min max h. h;
  limits = λ con bson message batch h. h;
  typed = λ con type h. h;
  tagged = λ con tags h. h;
  checked = λ con t h. h;
  verified = λ con t u h. h;
  versioned = λ con version h. h;
}

-- The authenticate callback leaves the hash of a connection alone.
abbrev pub LoginKeepsHash : {W : Type 0} → Setup W → Type 0
LoginKeepsHash setup =
    (options : ServerOptions) (server : ServerDef) (hash : Bytes)
    → Keeps (HasHash hash) (setup.authenticate options server)

module _ {W : Type 0} (setup : Setup W) (keeps_hash : LoginKeepsHash setup)
    (options : ServerOptions) where
  ismaster_passes-Keeps :
      (P : Connection → Type 0) (code : Code) (e : Option Bytes)
      → Keeps {W = W} P (ismaster_passes code e)
  ismaster_passes-Keeps P Code.error e = fail-Keeps P _ e
  ismaster_passes-Keeps P Code.worked e = return-Keeps P tt
  ismaster_passes-Keeps P Code.skipped e = return-Keeps P tt
  ismaster_passes-Keeps P Code.renamed e = return-Keeps P tt
  ismaster_passes-Keeps P Code.unsupported e = return-Keeps P tt

  logged :
      (server : ServerDef) (hash : Bytes)
      → Keeps (HasHash hash) (setup.authenticate options server >>= λ login. return tt)
  logged server hash =
      bind_Keeps (HasHash hash) _ _ (keeps_hash options server hash)
        λ login. return-Keeps (HasHash hash) tt

  login-Keeps :
      (server : ServerDef) (type : NodeType) (hash : Bytes)
      → Keeps (HasHash hash) (login_unless_arbiter setup options server type)
  login-Keeps server NodeType.arbiter hash = return-Keeps (HasHash hash) tt
  login-Keeps server NodeType.invalid hash = logged server hash
  login-Keeps server NodeType.standalone hash = logged server hash
  login-Keeps server NodeType.primary hash = logged server hash
  login-Keeps server NodeType.secondary hash = logged server hash
  login-Keeps server NodeType.mongos hash = logged server hash

  pub establish-Keeps :
      (server : ServerDef) (hash : Bytes) → Keeps (HasHash hash) (establish setup options server)
  unfolding establish
  establish-Keeps server hash =
      let P : Connection → Type 0 = HasHash hash in
      let kept : IsKept P = HasHash-IsKept hash in
      bind_Keeps P _ _ (ismaster-Keeps P setup.io options kept setup.intervals none) λ result.
        bind_Keeps P _ _ (ismaster_passes-Keeps P result.code result.error_message) λ passed.
          bind_Keeps P _ _ (get_server_version-Keeps P setup.io options kept setup.intervals)
            λ version. get_con-Keeps P _ λ con h.
              bind_Keeps P _ _ (login-Keeps server con.connection_type hash)
                λ login. ping-Keeps P setup.io options kept setup.intervals
