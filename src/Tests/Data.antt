-- ===== src/Tests/Data.antt =====
-- The inputs that the tests share: a digest in place of MD5, and server definitions.
use mongo_hhvm_driver.Base.{
  ℕ, ◌+◌, ◌%◌, ◌<◌, none, some, [], ◌∷◌, ◌≡◌, true, arith, ltb, if◌then◌else◌, length,
}
use mongo_hhvm_driver.Base.Int.{pos}
use mongo_hhvm_driver.CLib.{Bytes, codes}
use mongo_hhvm_driver.Types.{Mechanism, NodeType, Connection, ServerDef}
use mongo_hhvm_driver.Hash.Create.{Md5, is_hex, AllHex}

abbrev hex_digit : ℕ → ℕ
hex_digit n = if ltb n 10 then b'0' + n else 87 + n

hex_digit_lem : (n : ℕ) → n < 16 → is_hex (hex_digit n) ≡ true
hex_digit_lem n h = ground arith

abbrev sum : Bytes → ℕ
sum [] = 0
sum (c ∷ cs) = c + sum cs

abbrev short_digest : Bytes → Bytes
short_digest s = hex_digit (length s % 16) ∷ hex_digit (sum s % 16) ∷ []

pub short_digest-AllHex : (s : Bytes) → AllHex (short_digest s)
short_digest-AllHex s =
    (hex_digit_lem (length s % 16) (omega arith), (hex_digit_lem (sum s % 16) (omega arith), tt))

-- Two hexadecimal digits of the length and the sum, in place of MD5.
abbrev pub toy_md5 : Md5
toy_md5 = record { hex = short_digest; hex_digits = short_digest-AllHex }

-- A member of a replica set, with credentials.
abbrev pub member : ServerDef
member = record {
  host = codes "db1";
  port = pos 27017;
  repl_set_name = some (codes "rs0");
  db = some (codes "shop");
  authdb = none;
  username = some (codes "app");
  password = some (codes "pw");
  mechanism = Mechanism.mongodb_cr;
}

-- A server by itself, with no credentials.
abbrev pub lone : ServerDef
lone = record {
  host = codes "localhost";
  port = pos 27017;
  repl_set_name = none;
  db = none;
  authdb = none;
  username = none;
  password = none;
  mechanism = Mechanism.mongodb_cr;
}

-- The member without its credentials.
abbrev pub open_member : ServerDef
open_member = record member { db = none; username = none; password = none }

abbrev pub server_at : NodeType → ℕ → Bytes → Connection
server_at type ping hash = record {
  last_ping = 0;
  ping_ms = pos ping;
  connected = true;
  last_ismaster = pos 0;
  last_replcheck = pos 0;
  last_reqid = 0;
  socket = 1;
  connection_type = type;
  version = record { major = pos 2; minor = pos 6; mini = pos 0; build = pos 0 };
  min_wire_version = pos 0;
  max_wire_version = pos 2;
  max_bson_size = pos 16777216;
  max_message_size = pos 33554432;
  max_write_batch_size = pos 1000;
  tags = codes "dc:ny" ∷ codes "rack:1" ∷ [];
  hash = hash;
  cleanup_list = [];
}
