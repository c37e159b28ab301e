-- ===== src/Tests/Dangling.antt =====
-- A registered server whose isMaster fails, in `mongo_get_connection_multiple`: with the flag for no new
-- connections the call returns NULL, and the item stays and leads to the connection that was freed.
use mongo_hhvm_driver.Base.{arith, ℕ, true, false, none, some, [], ◌∷◌, ◌≡◌, refl}
use mongo_hhvm_driver.CLib.{Bytes, codes}
use mongo_hhvm_driver.Types.{RpType, ConType, NodeType, Connection, Servers}
use mongo_hhvm_driver.Hash.Create.{create_hash}
use mongo_hhvm_driver.Base.Int.{pos}
use mongo_hhvm_driver.CLib.{str_eq_refl}
use mongo_hhvm_driver.Hash.Split.{hash_to_pid}
use mongo_hhvm_driver.Hash.Pid.{hash_to_pid-create_hash}
use mongo_hhvm_driver.Manager.Registry.{
  find_by_hash, connection_find_by_hash, blacklist_find_by_hash,
}
use mongo_hhvm_driver.Str.Patch.{contents-Holds}
use mongo_hhvm_driver.Bson.Write.{get_reqid}
use mongo_hhvm_driver.Bson.Commands.{simple_commands-IsQuery}
use mongo_hhvm_driver.Connection.Create.{run_callbacks, broken}
use mongo_hhvm_driver.Connection.Decode.{Code}
use mongo_hhvm_driver.Connection.Ismaster.{run_ismaster, ismaster}
use mongo_hhvm_driver.Connection.Ping.{is_recent}
use mongo_hhvm_driver.Connection.Send.{send_packet}
use mongo_hhvm_driver.Pool.Effect.{update_connection, registered}
use mongo_hhvm_driver.Pool.Destroyed.{get_connection_multiple_dangles}
use mongo_hhvm_driver.Connection.Effect.{
  Attempt, Io, Session, ◌>>=◌, return, lift, call, attempt, get_con, set_con, now, catch,
}
use mongo_hhvm_driver.Connection.Login.{authenticate}
use mongo_hhvm_driver.Pool.Effect.{Pool, Setup}
use mongo_hhvm_driver.Pool.Multiple.{get_connection_multiple}
use mongo_hhvm_driver.Tests.Data.{toy_md5, lone, server_at}
use mongo_hhvm_driver.Tests.Sorting.{by_insertion}
use mongo_hhvm_driver.Tests.Server.{answering, intervals, options}

-- Nothing can be sent.
abbrev mute : Io ℕ
mute = record answering {
  send = λ con options bytes w. (Attempt.failed (some (codes "broken pipe")), w);
}

abbrev setup : Setup ℕ
setup = record {
  io = mute;
  authenticate = λ options server. authenticate mute toy_md5 options server;
  md5 = toy_md5;
  pid = 1;
  intervals = intervals;
}

abbrev lone_hash : Bytes
lone_hash = create_hash toy_md5 1 lone

abbrev known : Pool ℕ
known = record {
  manager = record {
    connections =
        record { hash = lone_hash; item_data = server_at NodeType.standalone 7 lone_hash } ∷ [];
    blacklist = [];
    dangling = [];
  };
  world = 0;
}

abbrev servers : Servers
servers = record {
  server = lone ∷ [];
  options = record options { con_type = ConType.multiple };
  read_pref = record { type = RpType.nearest; tagsets = [] };
}

abbrev con : Connection
con = server_at NodeType.standalone 7 lone_hash

abbrev session : Session ℕ
session = record { con = get_reqid con; world = 1 }

fails :
    ismaster mute intervals
      (record options { con_type = ConType.multiple })
      none
      (record { con = con; world = 0 })
    ≡ some (
      Attempt.done (record {
        code = Code.error;
        error_message = some (codes "broken pipe");
        discovery = none;
      }),
      session,
    )
unfolding ismaster run_ismaster send_packet ◌>>=◌ return lift call attempt get_con set_con now catch
    is_recent
fails =
    let (packet, made, held) = (simple_commands-IsQuery con).1 in
    rw made (rw (contents-Holds packet _ held) refl)

own : hash_to_pid lone_hash ≡ some (pos 1)
own = hash_to_pid-create_hash toy_md5 1 lone (omega arith)

get_connection_multiple_dangles_example :
    (s : Pool ℕ) × (get_connection_multiple setup by_insertion 5 servers
        (record { write = false; dont_connect = true; dont_filter = false })
        known
      ≡ some (Attempt.failed none, s))
    × (s.manager.dangling ≡ lone_hash ∷ [])
    × (s.manager.connections ≡ (update_connection known.manager (get_reqid con)).connections)
    × (s.world ≡ run_callbacks mute [] (mute.close (get_reqid con) broken 1))
    × (registered s.manager ≡ none)
unfolding find_by_hash connection_find_by_hash blacklist_find_by_hash get_reqid
get_connection_multiple_dangles_example =
    get_connection_multiple_dangles setup by_insertion 5 lone servers false false known con
      (some (codes "broken pipe")) session refl refl (rw (str_eq_refl lone_hash) refl) refl fails
      own refl
