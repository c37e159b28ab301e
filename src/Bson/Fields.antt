-- ===== src/Bson/Fields.antt =====
-- The typed readers of src/mcon/mini_bson.c. A reader returns the value of the field or, where the
-- code returns 0 and leaves the caller's variable as it was, `none`; the outer `none` is undefined
-- behaviour, a search without an end, or the end of the program. A `double` is its eight bytes.
use mongo_hhvm_driver.Base.{
  ◌>>=◌, ℕ, ◌+◌, Bool, true, false, Option, none, some, take, drop, get_elem?, length, leb,
  if◌then◌else◌,
}
use mongo_hhvm_driver.Base.Int.{ℤ, pos, eqb_ℤ}
use mongo_hhvm_driver.CLib.{Bytes}
use mongo_hhvm_driver.Bson.Reader.{Next, cstring, read_int32, next, get_current, Search, find_field}

abbrev pub settle : Search → Option (Option ℕ)
settle (Search.found at) = some (some at)
settle Search.missing = some none
settle _ = none

-- bson_find_field. A walk that is longer than the buffer has come to some element twice, so it has
-- no end.
unfoldable pub find : Bytes → ℕ → Bytes → ℕ → Option (Option ℕ)
unfolding find_field
find buf at field type = settle (find_field (length buf + 1) buf field (pos type) at)

abbrev pub read_with {ℓ} : {A : Type ℓ} → (ℕ → Option A) → Option ℕ → Option (Option A)
read_with read none = some none
read_with read (some at) = read at >>= λ v. some (some v)

-- bson_find_field_as_array: where the elements start, behind the length
unfoldable pub find_as_array : Bytes → ℕ → Bytes → Option (Option ℕ)
unfolding find
find_as_array buf at field = find buf at field 4 >>= read_with (λ value. some (value + 4))

-- bson_find_field_as_document
unfoldable pub find_as_document : Bytes → ℕ → Bytes → Option (Option ℕ)
unfolding find
find_as_document buf at field = find buf at field 3 >>= read_with (λ value. some (value + 4))

-- The bytes of a value with a fixed size
unfoldable pub read_bytes : Bytes → ℕ → ℕ → Option Bytes
read_bytes buf n at = if leb (at + n) (length buf) then some (take n (drop at buf)) else none

-- bson_find_field_as_double
unfoldable pub find_as_double : Bytes → ℕ → Bytes → Option (Option Bytes)
unfolding find read_bytes
find_as_double buf at field = find buf at field 1 >>= read_with (read_bytes buf 8)

-- bson_find_field_as_bool
unfoldable pub find_as_bool : Bytes → ℕ → Bytes → Option (Option ℕ)
unfolding find
find_as_bool buf at field = find buf at field 8 >>= read_with (get_elem? buf)

-- bson_find_field_as_int32
unfoldable pub find_as_int32 : Bytes → ℕ → Bytes → Option (Option ℤ)
unfolding find read_int32
find_as_int32 buf at field = find buf at field 16 >>= read_with (read_int32 buf)

-- bson_find_field_as_int64, as the eight bytes
unfoldable pub find_as_int64 : Bytes → ℕ → Bytes → Option (Option Bytes)
unfolding find read_bytes
find_as_int64 buf at field = find buf at field 18 >>= read_with (read_bytes buf 8)

abbrev pub read_stringl : Bytes → ℕ → Option (ℤ × Bytes)
read_stringl buf value = do
  length ← read_int32 buf value
  text ← cstring buf (value + 4)
  some (length, text)

-- bson_find_field_as_stringl, with the duplicate that the callers ask for: the length that the
-- server wrote, and the bytes up to the first NUL
unfoldable pub find_as_stringl : Bytes → ℕ → Bytes → Option (Option (ℤ × Bytes))
unfolding find read_int32
find_as_stringl buf at field = find buf at field 2 >>= read_with (read_stringl buf)

-- bson_find_field_as_string, with the C string that its callers read
unfoldable pub find_as_string : Bytes → ℕ → Bytes → Option (Option Bytes)
unfolding find
find_as_string buf at field = find buf at field 2 >>= read_with (λ value. cstring buf (value + 4))

-- What one step through an array comes to: the next place, or NULL; the program may end.
abbrev pub advance : Next → Option (Option ℕ)
advance (Next.to at) = some (some at)
advance Next.null = some none
advance Next.exits = none

-- A step through an array: the name and the value, if it is of the type, and the next place
pub record ArrayStep {ℓ} (A : Type ℓ) : Type ℓ where
  pub item : Option (Bytes × A)
  pub next_at : Option ℕ

abbrev pub item_of {ℓ} : {A : Type ℓ} → Bool → Option Bytes → Option A → Option (Option (Bytes × A))
item_of false field value = some none
item_of true none value = none
item_of true (some name) none = none
item_of true (some name) (some value) = some (some (name, value))

-- bson_array_find_next_string: where the type is another, the caller's variables stay as they were.
unfoldable pub array_find_next_string : Bytes → ℕ → Option (ArrayStep Bytes)
unfolding get_current next
array_find_next_string buf at = do
  current ← get_current buf at
  item ← item_of (eqb_ℤ current.type (pos 2)) current.field (cstring buf (current.value + 4))
  stepped ← next buf at
  next_at ← advance stepped
  some (record { item = item; next_at = next_at })

-- bson_array_find_next_int32
unfoldable pub array_find_next_int32 : Bytes → ℕ → Option (ArrayStep ℤ)
unfolding get_current next read_int32
array_find_next_int32 buf at = do
  current ← get_current buf at
  item ← item_of (eqb_ℤ current.type (pos 16)) current.field (read_int32 buf current.value)
  stepped ← next buf at
  next_at ← advance stepped
  some (record { item = item; next_at = next_at })
