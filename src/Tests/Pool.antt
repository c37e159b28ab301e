-- ===== src/Tests/Pool.antt =====
-- Getting a connection: from an empty manager, and for a server that is blacklisted.
use mongo_hhvm_driver.Base.{ℕ, false, some, [], ◌∷◌, ◌≡◌, refl, arith}
use mongo_hhvm_driver.CLib.{Bytes, codes, str_eq_refl}
use mongo_hhvm_driver.Hash.Create.{create_hash}
use mongo_hhvm_driver.Manager.Registry.{Blacklisted, blacklist_find_by_hash}
use mongo_hhvm_driver.Connection.Effect.{Attempt, Io}
use mongo_hhvm_driver.Connection.Login.{authenticate}
use mongo_hhvm_driver.Pool.Effect.{Pool, Setup}
use mongo_hhvm_driver.Pool.Single.{get_connection_single}
use mongo_hhvm_driver.Pool.Blacklist.{get_connection_single_blocked}
use mongo_hhvm_driver.Tests.Data.{toy_md5, lone}
use mongo_hhvm_driver.Tests.Server.{answering, silent, intervals, options}

abbrev setup_with : Io ℕ → Setup ℕ
setup_with io = record {
  io = io;
  authenticate = λ options server. authenticate io toy_md5 options server;
  md5 = toy_md5;
  pid = 1;
  intervals = intervals;
}

abbrev setup : Setup ℕ
setup = setup_with answering

abbrev down : Setup ℕ
down = setup_with silent

abbrev empty_pool : Pool ℕ
empty_pool = record {
  manager = record { connections = []; blacklist = []; dangling = [] };
  world = 0;
}

abbrev lone_hash : Bytes
lone_hash = create_hash toy_md5 1 lone

-- A pool whose manager has the server on its blacklist since `last`
abbrev listed_since : ℕ → Pool ℕ
listed_since last = record {
  manager = record {
    connections = [];
    blacklist = record { hash = lone_hash; item_data = record { last_ping = last } } ∷ [];
    dangling = [];
  };
  world = 0;
}

abbrev pub entry_since : ℕ → Blacklisted
entry_since last = record { last_ping = last }

listed :
    (last : ℕ)
    → blacklist_find_by_hash (listed_since last).manager (create_hash toy_md5 1 lone)
      ≡ some (entry_since last)
unfolding blacklist_find_by_hash
listed last = rw (str_eq_refl lone_hash) refl

get_connection_single_blocked_example :
    get_connection_single setup options lone false (listed_since 998)
    ≡ some (
      Attempt.failed (some (codes "Previous connection attempts failed, server blacklisted")),
      record { manager = (listed_since 998).manager; world = 1 },
    )
get_connection_single_blocked_example =
    get_connection_single_blocked setup options lone (listed_since 998) (entry_since 998)
      (record { sec = 1000; usec = 0 }) 1 (listed 998) refl false (omega arith) (omega arith)
