-- ===== src/Bson/Reader.antt =====
-- `bson_next`, `bson_get_current` and `bson_find_field`. A pointer is an index into the buffer; a
-- read outside the buffer, or a pointer before it, is undefined behaviour, `none`. Numbers are
-- little-endian, as on the machines where MONGO_32 is the identity.
use mongo_hhvm_driver.Base.{
  ◌>>=◌, ℕ, zero, suc, ◌+◌, ◌-◌, ◌*◌, ◌^◌, Bool, true, false, ◌&&◌, ◌||◌, Option, none, some, ◌==◌,
  ltb, if◌then◌else◌, length, drop, get_elem?,
}
use mongo_hhvm_driver.Base.Int.{ℤ, pos, negsuc, signed32, eqb_ℤ}
use mongo_hhvm_driver.CLib.{Bytes, split_at, str_eq}

-- What `bson_next` does: it returns a pointer or NULL, or ends the program.
pub data Next : Type 0 where
  to : ℕ → Next
  null exits : Next

-- The bytes up to the next NUL.
abbrev pub cstring : Bytes → ℕ → Option Bytes
cstring buf at = split_at 0 (drop at buf) >>= λ parts. some parts.0

-- bson_skip_field_name
unfoldable pub skip_field_name : Bytes → ℕ → Option ℕ
skip_field_name buf at = cstring buf at >>= λ name. some (at + length name + 1)

-- MONGO_32(*(int*)data)
unfoldable pub read_int32 : Bytes → ℕ → Option ℤ
read_int32 buf at = do
  b₀ ← get_elem? buf at
  b₁ ← get_elem? buf (at + 1)
  b₂ ← get_elem? buf (at + 2)
  b₃ ← get_elem? buf (at + 3)
  some (signed32 (b₀ + b₁ * 2 ^ 8 + b₂ * 2 ^ 16 + b₃ * 2 ^ 24))

-- A pointer moved by a number that may be negative.
abbrev pub move : ℕ → ℤ → Option ℕ
move at (pos n) = some (at + n)
move at (negsuc n) = if ltb n at then some (at - suc n) else none

-- The sizes of the types that have one. 255 and 127 are the smallest and the largest key.
unfoldable pub fixed_size : ℕ → Option ℕ
fixed_size type =
    if type == 1 || (type == 9 || (type == 17 || type == 18))
    then some 8
    else if type == 6 || (type == 10 || (type == 255 || type == 127))
    then some 0
    else if type == 7
    then some 12
    else if type == 8
    then some 1
    else if type == 16
    then some 4
    else none

-- The types that start with a length, and what is added to it: strings (2, 13, 14), documents and
-- arrays (3, 4), binary data (5) and pointers (12).
unfoldable pub length_extra : ℕ → Option ℕ
length_extra type =
    if type == 2 || (type == 13 || type == 14)
    then some 4
    else if type == 3 || type == 4
    then some 0
    else if type == 5
    then some 5
    else if type == 12
    then some 16
    else none

-- The rest of the switch: a regular expression, of which one string is skipped, code with a scope,
-- and a type that is unknown.
unfoldable pub next_other : Bytes → ℕ → ℕ → Option Next
unfolding skip_field_name
next_other buf type value =
    if type == 11
    then (skip_field_name buf value >>= λ at. some (to at))
    else if type == 15
    then some exits
    else some null

abbrev pub next_value : Bytes → ℕ → ℕ → Option ℕ → Option ℕ → Option Next
next_value buf type value (some size) extra = some (to (value + size))
next_value buf type value none (some extra) = do
  length ← read_int32 buf value
  at ← move (value + extra) length
  some (to at)
next_value buf type value none none = next_other buf type value

abbrev pub next_behind : Bytes → ℕ → ℕ → Option Next
next_behind buf at type = do
  value ← skip_field_name buf (at + 1)
  next_value buf type value (fixed_size type) (length_extra type)

-- bson_next
unfoldable pub next : Bytes → ℕ → Option Next
unfolding skip_field_name read_int32 fixed_size length_extra next_other
next buf at = do
  type ← get_elem? buf at
  let behind = next_behind buf at type
  if type == 0 then some null else behind

-- What `bson_get_current` finds; the field is NULL at the end.
pub record Current : Type 0 where
  pub type : ℤ
  pub field : Option Bytes
  pub value : ℕ

abbrev pub signed_char : ℕ → ℤ
signed_char b = if ltb b 128 then pos b else negsuc (255 - b)

abbrev pub current_field : Bytes → ℕ → ℕ → Option Current
current_field buf at type = do
  name ← cstring buf (at + 1)
  value ← skip_field_name buf at
  some (record { type = signed_char type; field = some name; value = value })

-- bson_get_current
unfoldable pub get_current : Bytes → ℕ → Option Current
unfolding skip_field_name
get_current buf at = do
  type ← get_elem? buf at
  let field = current_field buf at type
  if type == 0 then some (record { type = pos 0; field = none; value = 0 }) else field

-- What the search comes to. A length in the document may lead back, so the loop may be endless.
pub data Search : Type 0 where
  found : ℕ → Search
  missing undefined exits endless : Search

unfoldable pub is_wanted : Current → Bytes → ℤ → Option Bool
is_wanted current name type =
    current.field >>= λ field. some (str_eq field name && eqb_ℤ current.type type)

-- `ptr = bson_next(ptr)`, and the loop from there
abbrev pub follow : (ℕ → Search) → Option Next → Search
follow loop none = Search.undefined
follow loop (some (Next.to at)) = loop at
follow loop (some Next.null) = Search.missing
follow loop (some Next.exits) = Search.exits

-- The test of the loop, `none` for a NULL field
abbrev pub judge : ℕ → Search → Option Bool → Search
judge value later none = Search.missing
judge value later (some true) = Search.found value
judge value later (some false) = later

abbrev pub search_at : Bytes → ℤ → Search → Option Current → Search
search_at name type later none = Search.undefined
search_at name type later (some current) = judge current.value later (is_wanted current name type)

-- bson_find_field, with fuel for the loop
unfoldable pub find_field : ℕ → Bytes → Bytes → ℤ → ℕ → Search
unfolding get_current next is_wanted
find_field zero buf name type at = Search.endless
find_field (suc fuel) buf name type at =
    search_at name type (follow (λ later. find_field fuel buf name type later) (next buf at))
      (get_current buf at)
