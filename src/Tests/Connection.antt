-- ===== src/Tests/Connection.antt =====
-- Operations on a connection to the server of the tests.
use mongo_hhvm_driver.Base.{ℕ, ◌+◌, ◌-◌, ◌*◌, ◌<◌, none, some, [], ◌∷◌, ◌≡◌, arith, Sure}
use mongo_hhvm_driver.Base.Int.{pos}
use mongo_hhvm_driver.CLib.{codes}
use mongo_hhvm_driver.Types.{NodeType, Connection}
use mongo_hhvm_driver.Str.{Str}
use mongo_hhvm_driver.Bson.Packets.{
  command_ns, create_authenticate_packet, create_saslstart_packet, create_saslcontinue_packet,
}
use mongo_hhvm_driver.Bson.Commands.{
  IsQuery, authenticate_document, create_authenticate_packet-IsQuery, saslstart_document,
  saslcontinue_document, sasl_packets-IsQuery,
}
use mongo_hhvm_driver.Connection.Effect.{Time, Session}
use mongo_hhvm_driver.Connection.Keeps.{Ensures}
use mongo_hhvm_driver.Connection.Ping.{elapsed, ping}
use mongo_hhvm_driver.Connection.Clock.{micros, elapsed_bounds}
use mongo_hhvm_driver.Connection.Discover.{Discovery, discover}
use mongo_hhvm_driver.Connection.Decode.{Ismaster}
use mongo_hhvm_driver.Connection.Ismaster.{ismaster}
use mongo_hhvm_driver.Connection.Buildinfo.{get_server_version}
use mongo_hhvm_driver.Connection.Identity.{SameIdentity, operations-SameIdentity}
use mongo_hhvm_driver.Connection.Sound.{IsAccepted, discover-IsAccepted}
use mongo_hhvm_driver.Tests.Data.{server_at, lone, toy_md5}
use mongo_hhvm_driver.Connection.Login.{authenticate}
use mongo_hhvm_driver.Tests.Server.{answer, answering, intervals, options}

abbrev con : Connection
con = server_at NodeType.secondary 7 (codes "db2:27017;-;.;4711")

abbrev session : Session ℕ
session = record { con = con; world = 3 }

create_authenticate_packet-IsQuery_example :
    IsQuery con
      (some (command_ns (codes "admin")))
      (authenticate_document none
        (codes "app")
        (some (codes "2375531c32080ae8"))
        (some (codes "21742f26431831d5")))
      (create_authenticate_packet con none
        (codes "admin")
        (codes "app")
        (some (codes "2375531c32080ae8"))
        (some (codes "21742f26431831d5")))
create_authenticate_packet-IsQuery_example =
    create_authenticate_packet-IsQuery con none (codes "admin") (codes "app")
      (some (codes "2375531c32080ae8")) (some (codes "21742f26431831d5")) (omega arith)

sasl_packets-IsQuery_example :
    IsQuery con
      (some (command_ns (codes "admin")))
      (saslstart_document (some (codes "PLAIN")) (codes "abc"))
      (create_saslstart_packet con (codes "admin") (some (codes "PLAIN")) (codes "abc") (pos 4))
    × IsQuery con
        (some (command_ns (codes "admin")))
        (saslcontinue_document (pos 1) (codes "abc"))
        (create_saslcontinue_packet con (codes "admin") (pos 1) (codes "abc") (pos 4))
sasl_packets-IsQuery_example =
    sasl_packets-IsQuery con (codes "admin") (some (codes "PLAIN")) (pos 1) (codes "abc")
      (omega arith) (omega arith)

abbrev before : Time
before = record { sec = 100; usec = 900000 }

abbrev after : Time
after = record { sec = 101; usec = 20500 }

elapsed_bounds_example :
    (n : ℕ) × (elapsed before after ≡ pos n)
    × (n * 1000 < micros after - micros before + 1000)
    × (micros after - micros before < n * 1000 + 1000)
elapsed_bounds_example =
    elapsed_bounds before after (omega arith) (omega arith) (omega arith) (omega arith)

operations-SameIdentity_example :
    Ensures (SameIdentity con) (ping answering intervals options session)
    × Ensures (SameIdentity con) (ismaster answering intervals options none session)
    × Ensures (SameIdentity con) (get_server_version answering options session)
    × Ensures (SameIdentity con) (authenticate answering toy_md5 options lone session)
operations-SameIdentity_example =
    operations-SameIdentity answering toy_md5 intervals options lone none session

abbrev request : Discovery
request = record { repl_set_name = some (codes "rs0"); found_hosts = []; server = lone }

discover-IsAccepted_example :
    Sure
      (IsAccepted (some (codes "rs0")) request)
      (discover answer con (some (codes "rs0")) request)
discover-IsAccepted_example = discover-IsAccepted answer con (some (codes "rs0")) request

abbrev packet : Str
packet = record {
  l = 5;
  a = 8;
  d = some 104 ∷ some 101 ∷ some 108 ∷ some 108 ∷ some 111 ∷ some 0 ∷ none ∷ none ∷ [];
}
