-- ===== src/Tests/Server.antt =====
-- A server that the tests talk to: the primary of the set "rs0", which gives the same answer to each
-- packet. The world is a clock that every look at it moves on by a millisecond.
use mongo_hhvm_driver.Base.{ℕ, ◌+◌, ◌*◌, false, none, some, List, [], ◌∷◌, ◌++◌, length, arith}
use mongo_hhvm_driver.Base.Int.{pos}
use mongo_hhvm_driver.CLib.{Bytes, codes}
use mongo_hhvm_driver.Types.{ConType, RpType, ServerOptions, Servers}
use mongo_hhvm_driver.Bson.Document.{Value, Element, print_int32, print_elements}
use mongo_hhvm_driver.Manager.Wire.{supports_wire_version}
use mongo_hhvm_driver.Connection.Effect.{Attempt, Time, Io}
use mongo_hhvm_driver.Connection.Ping.{Intervals}
use mongo_hhvm_driver.Tests.Data.{open_member}

abbrev flag : Element
flag = record {
  name = codes "ismaster";
  value = Value.boolean 1;
  name_nul = omega arith;
  short = omega arith;
}

abbrev set_name : Element
set_name = record {
  name = codes "setName";
  value = Value.string (codes "rs0" ++ (0 ∷ []));
  name_nul = omega arith;
  short = omega arith;
}

abbrev pub host : Element
host = record {
  name = codes "0";
  value = Value.string (codes "db1:27017" ++ (0 ∷ []));
  name_nul = omega arith;
  short = omega arith;
}

abbrev pub hosts : Element
hosts = record {
  name = codes "hosts";
  value = Value.array (print_elements (host ∷ []) []);
  name_nul = omega arith;
  short = omega arith;
}

abbrev pub tag_dc : Element
tag_dc = record {
  name = codes "dc";
  value = Value.string (codes "ny" ++ (0 ∷ []));
  name_nul = omega arith;
  short = omega arith;
}

abbrev tags : Element
tags = record {
  name = codes "tags";
  value = Value.document (print_elements (tag_dc ∷ []) []);
  name_nul = omega arith;
  short = omega arith;
}

abbrev pub fields : List Element
fields = flag ∷ set_name ∷ hosts ∷ tags ∷ []

abbrev pub answer : Bytes
answer = print_int32 (4 + length (print_elements fields [])) ++ print_elements fields []

abbrev pub reply_header : Bytes
reply_header =
    print_int32 (36 + length answer)
    ++ (0 ∷ 0 ∷ 0 ∷ 0 ∷ 0 ∷ 0 ∷ 0 ∷ 0 ∷ 0 ∷ 0 ∷ 0 ∷ 0 ∷ 0 ∷ 0 ∷ 0 ∷ 0 ∷ 0 ∷ 0 ∷ 0 ∷ 0 ∷ 0 ∷ 0 ∷ 0
        ∷ 0 ∷ 0 ∷ 0 ∷ 0 ∷ 0 ∷ 0 ∷ 0 ∷ 0 ∷ 0 ∷ [])

abbrev tick : ℕ → Time
tick w = record { sec = 1000; usec = w * 1000 }

abbrev pub answering : Io ℕ
answering = record {
  connect = λ server options w. (Attempt.done 7, w);
  send = λ con options bytes w. (Attempt.done tt, w);
  recv_header = λ con options timeout w. (Attempt.done reply_header, w);
  recv_data = λ con options timeout size w. (Attempt.done answer, w);
  close = λ con why w. w;
  cleanup = λ callback w. w;
  forget = λ con w. w;
  supports_wire_version = supports_wire_version;
  gettimeofday = λ w. (tick w, w + 1);
  rand = λ w. (w, w);
}

-- The server is down.
abbrev pub silent : Io ℕ
silent = record answering {
  connect = λ server options w. (Attempt.failed (some (codes "connection refused")), w);
}

abbrev pub intervals : Intervals
intervals = record { ping_interval = pos 5; ismaster_interval = pos 15 }

abbrev pub options : ServerOptions
options = record {
  con_type = ConType.replset;
  repl_set_name = some (codes "rs0");
  connect_timeout_ms = pos 60000;
  socket_timeout_ms = pos 30000;
  secondary_acceptable_latency_ms = pos 15;
  default_w = pos 1;
  default_wstring = none;
  default_wtimeout = pos 10000;
  default_fsync = false;
  default_journal = false;
  ssl = 0;
  gssapi_service_name = none;
  ctx = none;
}

abbrev pub seeds : Servers
seeds = record {
  server = open_member ∷ [];
  options = options;
  read_pref = record { type = RpType.primary; tagsets = [] };
}
