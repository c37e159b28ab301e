-- ===== src/Connection/Identity.antt =====
-- The identity of a connection, which the registry relies on: ping, ismaster, get_server_version and
-- authenticate leave it as it is. Destroying a connection, getting a new one and its callbacks change
-- some of these fields.
use mongo_hhvm_driver.Base.{Option, ◌≡◌, refl}
use mongo_hhvm_driver.Types.{Connection, ServerDef, ServerOptions}
use mongo_hhvm_driver.Hash.Create.{Md5}
use mongo_hhvm_driver.Connection.Login.{authenticate}
use mongo_hhvm_driver.Connection.LoginFrame.{authenticate-Keeps}
use mongo_hhvm_driver.Bson.Write.{get_reqid}
use mongo_hhvm_driver.Connection.Effect.{Io, Session}
use mongo_hhvm_driver.Connection.Keeps.{Ensures}
use mongo_hhvm_driver.Connection.Kept.{IsKept}
use mongo_hhvm_driver.Connection.Ping.{Intervals, ping}
use mongo_hhvm_driver.Connection.Discover.{Discovery}
use mongo_hhvm_driver.Connection.Ismaster.{ismaster}
use mongo_hhvm_driver.Connection.Buildinfo.{get_server_version}
use mongo_hhvm_driver.Connection.Frame.{ping-Keeps, ismaster-Keeps, get_server_version-Keeps}

pub record SameIdentity (old con : Connection) : Type 0 where
  pub hash : con.hash ≡ old.hash
  pub socket : con.socket ≡ old.socket
  pub connected : con.connected ≡ old.connected
  pub cleanup_list : con.cleanup_list ≡ old.cleanup_list

SameIdentity-get_reqid :
    (old con : Connection) → SameIdentity old con → SameIdentity old (get_reqid con)
unfolding get_reqid
SameIdentity-get_reqid old con h = record {
  hash = h.hash;
  socket = h.socket;
  connected = h.connected;
  cleanup_list = h.cleanup_list;
}

pub SameIdentity-IsKept : (old : Connection) → IsKept (SameIdentity old)
SameIdentity-IsKept old =
    let same : (con con' : Connection)
        → SameIdentity old con
        → con'.hash ≡ con.hash
        → con'.socket ≡ con.socket
        → con'.connected ≡ con.connected
        → con'.cleanup_list ≡ con.cleanup_list
        → SameIdentity old con' =
      λ con con' h a b c d. record { hash = cc; socket = cc; connected = cc; cleanup_list = cc } in
    record {
      reqid = SameIdentity-get_reqid old;
      pinged = λ con t ms h. same con _ h refl refl refl refl;
      wire = λ con min max h. same con _ h refl refl refl refl;
      limits = λ con bson message batch h. same con _ h refl refl refl refl;
      typed = λ con type h. same con _ h refl refl refl refl;
      tagged = λ con tags h. same con _ h refl refl refl refl;
      checked = λ con t h. same con _ h refl refl refl refl;
      verified = λ con t u h. same con _ h refl refl refl refl;
      versioned = λ con version h. same con _ h refl refl refl refl;
    }

-- Whatever the callbacks do and the server answers, ping, ismaster, get_server_version and authenticate
-- leave the hash, the socket, the connected flag and the cleanup list of the connection as they were,
-- where they succeed and where they fail, but for undefined behaviour.
pub operations-SameIdentity :
    {W : Type 0} (io : Io W) (md5 : Md5) (intervals : Intervals) (options : ServerOptions)
    (server : ServerDef) (d : Option Discovery) (s : Session W)
    → Ensures (SameIdentity s.con) (ping io intervals options s)
      × Ensures (SameIdentity s.con) (ismaster io intervals options d s)
      × Ensures (SameIdentity s.con) (get_server_version io options s)
      × Ensures (SameIdentity s.con) (authenticate io md5 options server s)
operations-SameIdentity io md5 intervals options server d s =
    let P : Connection → Type 0 = SameIdentity s.con in
    let kept : IsKept P = SameIdentity-IsKept s.con in
    let same : P s.con = record {
      hash = refl;
      socket = refl;
      connected = refl;
      cleanup_list = refl;
    } in
    (
      (ping-Keeps P io options kept intervals).holds s same,
      (ismaster-Keeps P io options kept intervals d).holds s same,
      (get_server_version-Keeps P io options kept intervals).holds s same,
      (authenticate-Keeps P io md5 options kept server).holds s same,
    )
