-- ===== src/Bson/Values.antt =====
-- The values of BSON as variables of C, said without the readers: a number from its bytes, the lowest
-- first, and a string up to its first NUL.
use mongo_hhvm_driver.Base.{
  ◌>>=◌, ℕ, ◌+◌, ◌*◌, ◌^◌, ◌<◌, true, Option, none, some, [], ◌∷◌, ◌==◌, if◌then◌else◌, is_some,
  length, ◌≡◌, refl, ap, ◌∙◌, arith, Bool-cases, inl, inr,
}
use mongo_hhvm_driver.Base.Int.{ℤ, pos, signed32}
use mongo_hhvm_driver.CLib.{Bytes, split_at, split_at-cons}
use mongo_hhvm_driver.Bson.Document.{Value, print_int32}
use mongo_hhvm_driver.Bson.Reader.{cstring}

abbrev pub little_endian : Bytes → ℕ
little_endian [] = 0
little_endian (b ∷ bytes) = b + 256 * little_endian bytes

abbrev pub up_to_nul : Bytes → Option Bytes
up_to_nul [] = none
up_to_nul (c ∷ s) =
    let later = up_to_nul s >>= λ text. some (c ∷ text) in if c == 0 then some [] else later

-- Two's complement in 32 bits
abbrev pub as_int32 : Value → Option ℤ
as_int32 (Value.int32 v h) = some (signed32 (little_endian v))
as_int32 _ = none

-- The eight bytes
abbrev pub as_int64 : Value → Option Bytes
as_int64 (Value.int64 v h) = some v
as_int64 _ = none

abbrev pub as_double : Value → Option Bytes
as_double (Value.double v h) = some v
as_double _ = none

abbrev pub as_bool : Value → Option ℕ
as_bool (Value.boolean b) = some b
as_bool _ = none

abbrev pub as_text : Value → Option Bytes
as_text (Value.string s) = up_to_nul s
as_text _ = none

-- The text, and the length of the string with all that stands behind the first NUL
abbrev pub as_sized_text : Value → Option (ℤ × Bytes)
as_sized_text (Value.string s) = up_to_nul s >>= λ text. some (pos (length s), text)
as_sized_text _ = none

-- A string has a NUL.
abbrev pub HasNul : Value → Type 0
HasNul (Value.string s) = is_some (up_to_nul s) ≡ true
HasNul _ = Unit

pub cstring-up_to_nul : (s : Bytes) → cstring s 0 ≡ up_to_nul s
unfolding split_at
cstring-up_to_nul [] = refl
cstring-up_to_nul (c ∷ s) = elim (Bool-cases (c == 0)) [
  | inl ends ↦ rw ends refl
  | inr goes_on ↦
      split_at-cons 0 c s goes_on
      ∙ rw goes_on (ap (λ later. later >>= λ text. some (c ∷ text)) (cstring-up_to_nul s))
]

pub little_endian-print_int32 :
    (n : ℕ) → n < 2 ^ 31 → signed32 (little_endian (print_int32 n)) ≡ pos n
little_endian-print_int32 n small =
    let same : little_endian (print_int32 n) ≡ n = omega arith in rw same (ground arith)
