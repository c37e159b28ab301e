-- ===== src/Bson/Write.antt =====
-- What packets are made of: the serialised numbers of src/mcon/bson_helpers.c, the fields and the
-- header of src/mcon/mini_bson.c. Numbers are little-endian, as in Bson/Reader.
use mongo_hhvm_driver.Base.{◌>>=◌, ℕ, ◌+◌, ◌/◌, ◌%◌, ◌^◌, Option, none, some, [], ◌∷◌, ◌++◌, length}
use mongo_hhvm_driver.Base.Int.{ℤ, pos, negsuc, word32, word64}
use mongo_hhvm_driver.CLib.{Bytes, codes}
use mongo_hhvm_driver.Types.{Connection}
use mongo_hhvm_driver.Str.{Str, init, addl, add}
use mongo_hhvm_driver.Bson.Document.{print_int32}

-- The bytes of an `int` and of an `int64_t`.
abbrev pub int_bytes : ℤ → Bytes
int_bytes num = print_int32 (word32 num)

abbrev pub int64_bytes : ℤ → Bytes
int64_bytes num = print_int32 (word64 num % 2 ^ 32) ++ print_int32 (word64 num / 2 ^ 32)

-- mcon_serialize_int
unfoldable pub serialize_int : Str → ℤ → Option Str
serialize_int str num = addl str (int_bytes num)

-- mcon_serialize_int32
unfoldable pub serialize_int32 : Str → ℤ → Option Str
serialize_int32 str num = addl str (int_bytes num)

-- mcon_serialize_int64
unfoldable pub serialize_int64 : Str → ℤ → Option Str
serialize_int64 str num = addl str (int64_bytes num)

-- bson_add_int32
unfoldable pub add_int32 : Bytes → ℤ → Str → Option Str
unfolding serialize_int32
add_int32 fieldname v str = do
  typed ← addl str (16 ∷ [])
  named ← addl typed (fieldname ++ (0 ∷ []))
  serialize_int32 named v

-- bson_add_long
unfoldable pub add_long : Bytes → ℤ → Str → Option Str
unfolding serialize_int64
add_long fieldname v str = do
  typed ← addl str (18 ∷ [])
  named ← addl typed (fieldname ++ (0 ∷ []))
  serialize_int64 named v

-- bson_add_stringl: the length is the caller's, and the string is copied up to its NUL.
unfoldable pub add_stringl : Bytes → Bytes → ℤ → Str → Option Str
unfolding serialize_int add
add_stringl fieldname string len str = do
  typed ← addl str (2 ∷ [])
  named ← addl typed (fieldname ++ (0 ∷ []))
  counted ← serialize_int named len
  copied ← add counted string
  addl copied (0 ∷ [])

-- bson_add_string
unfoldable pub add_string : Bytes → Bytes → Str → Option Str
unfolding add_stringl
add_string fieldname string str = add_stringl fieldname string (pos (length string + 1)) str

-- mongo_connection_get_reqid: the number is the 32 bits of an `int`, which wraps.
unfoldable pub get_reqid : Connection → Connection
get_reqid con = record con { last_reqid = (con.last_reqid + 1) % 2 ^ 32 }

-- `ns ? ns : "admin.$cmd"`, the NUL included
abbrev pub namespace : Option Bytes → Bytes
namespace none = codes "admin.$cmd" ++ (0 ∷ [])
namespace (some ns) = ns ++ (0 ∷ [])

-- create_simple_header, for a connection whose request number was just taken
unfoldable pub create_simple_header : ℕ → Option Bytes → Option Str
unfolding serialize_int
create_simple_header reqid ns = do
  sized ← serialize_int init (pos 0)
  numbered ← serialize_int sized (pos reqid)
  answering ← serialize_int numbered (pos 0)
  query ← serialize_int answering (pos 2004)
  flagged ← serialize_int query (pos 4)
  named ← addl flagged (namespace ns)
  skipping ← serialize_int named (pos 0)
  serialize_int skipping (negsuc 0)
