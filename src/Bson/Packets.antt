-- ===== src/Bson/Packets.antt =====
-- The packets of src/mcon/mini_bson.c: a header, a document and, when both are written, their lengths.
use mongo_hhvm_driver.Base.{◌>>=◌, ℕ, ◌-◌, Option, none, some, [], ◌∷◌, ◌++◌, map}
use mongo_hhvm_driver.Base.Int.{ℤ, pos}
use mongo_hhvm_driver.CLib.{Bytes, codes}
use mongo_hhvm_driver.Types.{Connection}
use mongo_hhvm_driver.Memory.{store}
use mongo_hhvm_driver.Str.{Str, addl}
use mongo_hhvm_driver.Bson.Write.{
  int_bytes, serialize_int, add_int32, add_long, add_stringl, add_string, get_reqid,
  create_simple_header,
}

-- An `int` that is written over four bytes of the buffer.
unfoldable pub set_int : Str → ℕ → ℕ → Option Str
set_int str at num =
    store str.d at (map some (int_bytes (pos num))) >>= λ d. some (record str { d = d })

-- The NUL that ends the document, and its length and the packet's.
unfoldable pub set_length : ℕ → Str → Option Str
unfolding set_int
set_length hdr str = do
  ended ← addl str (0 ∷ [])
  inner ← set_int ended hdr (ended.l - hdr)
  set_int inner 0 inner.l

-- A packet with the fields that `body` adds
unfoldable pub create_packet : Connection → Option Bytes → (Str → Option Str) → Option Str
unfolding create_simple_header serialize_int set_length
create_packet con ns body = do
  header ← create_simple_header (get_reqid con).last_reqid ns
  sized ← serialize_int header (pos 0)
  filled ← body sized
  set_length header.l filled

-- bson_create_ping_packet
unfoldable pub create_ping_packet : Connection → Option Str
create_ping_packet con = create_packet con none (add_long (codes "ping") (pos 1))

-- bson_create_ismaster_packet
unfoldable pub create_ismaster_packet : Connection → Option Str
create_ismaster_packet con = create_packet con none (add_long (codes "isMaster") (pos 1))

-- bson_create_buildinfo_packet
unfoldable pub create_buildinfo_packet : Connection → Option Str
create_buildinfo_packet con = create_packet con none (add_long (codes "buildInfo") (pos 1))

-- bson_create_rs_status_packet
unfoldable pub create_rs_status_packet : Connection → Option Str
create_rs_status_packet con = create_packet con none (add_long (codes "replSetGetStatus") (pos 1))

-- bson_create_getnonce_packet
unfoldable pub create_getnonce_packet : Connection → Option Str
create_getnonce_packet con = create_packet con none (add_long (codes "getnonce") (pos 1))

-- A field that is left out for a NULL
abbrev pub add_optional : Bytes → Option Bytes → Str → Option Str
add_optional fieldname none str = some str
add_optional fieldname (some string) str = add_string fieldname string str

unfoldable pub authenticate_fields :
    Option Bytes → Bytes → Option Bytes → Option Bytes → Str → Option Str
unfolding add_long add_string
authenticate_fields mechanism username nonce key str = do
  command ← add_long (codes "authenticate") (pos 1) str
  user ← add_string (codes "user") username command
  nonced ← add_optional (codes "nonce") nonce user
  keyed ← add_optional (codes "key") key nonced
  add_optional (codes "mechanism") mechanism keyed

-- The namespace of a database's commands
abbrev pub command_ns : Bytes → Bytes
command_ns database = database ++ codes ".$cmd"

-- bson_create_authenticate_packet
unfoldable pub create_authenticate_packet :
    Connection → Option Bytes → Bytes → Bytes → Option Bytes → Option Bytes → Option Str
unfolding authenticate_fields
create_authenticate_packet con mechanism database username nonce key =
    create_packet con (some (command_ns database))
      (authenticate_fields mechanism username nonce key)

unfoldable pub saslstart_fields : Option Bytes → Bytes → ℤ → Str → Option Str
unfolding add_long add_string add_stringl
saslstart_fields (some mechanism) payload payload_len str = do
  command ← add_long (codes "saslStart") (pos 1) str
  named ← add_string (codes "mechanism") mechanism command
  paid ← add_stringl (codes "payload") payload payload_len named
  add_long (codes "autoAuthorize") (pos 1) paid
saslstart_fields none payload payload_len str = do
  command ← add_long (codes "saslStart") (pos 1) str
  named ← add_string (codes "mechanism") (codes "What-Do-You-Support?") command
  paid ← add_string (codes "payload") [] named
  add_long (codes "autoAuthorize") (pos 1) paid

-- bson_create_saslstart_packet
unfoldable pub create_saslstart_packet : Connection → Bytes → Option Bytes → Bytes → ℤ → Option Str
unfolding saslstart_fields
create_saslstart_packet con database mechanism payload payload_len =
    create_packet con (some (command_ns database)) (saslstart_fields mechanism payload payload_len)

unfoldable pub saslcontinue_fields : ℤ → Bytes → ℤ → Str → Option Str
unfolding add_long add_int32 add_stringl
saslcontinue_fields conversation_id payload payload_len str = do
  command ← add_long (codes "saslContinue") (pos 1) str
  conversation ← add_int32 (codes "conversationId") conversation_id command
  add_stringl (codes "payload") payload payload_len conversation

-- bson_create_saslcontinue_packet
unfoldable pub create_saslcontinue_packet : Connection → Bytes → ℤ → Bytes → ℤ → Option Str
unfolding saslcontinue_fields
create_saslcontinue_packet con database conversation_id payload payload_len =
    create_packet con (some (command_ns database))
      (saslcontinue_fields conversation_id payload payload_len)
