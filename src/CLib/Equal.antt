-- ===== src/CLib/Equal.antt =====
-- `strcmp(a, b) == 0`, `strcasecmp(a, b) == 0` and `strstr(s, p) == s`.
use Prim.Native.Char.{code}
use Prim.Native.String.{String}
use mongo_hhvm_driver.Base.{
  Bool-cases, inl, inr, ◌≢◌, ℕ, ◌+◌, Bool, true, false, ◌&&◌, List, [], ◌∷◌, map, ◌≡◌, refl, ◌↔◌,
  arith, leb, ◌==◌, if◌then◌else◌,
}

abbrev pub Bytes : Type 0
Bytes = List ℕ

-- The code points of a literal: its bytes, as every literal here is ASCII.
abbrev pub codes : String → Bytes
codes String.[] = []
codes (String.◌∷◌ c s) = code c ∷ codes s

-- strcmp(a, b) == 0
unfoldable pub str_eq : Bytes → Bytes → Bool
str_eq [] [] = true
str_eq (x ∷ xs) (y ∷ ys) = x == y && str_eq xs ys
str_eq _ _ = false

to_lower : ℕ → ℕ
to_lower c = if leb b'A' c && leb c b'Z' then c + 32 else c

-- strcasecmp(a, b) == 0, in the "C" locale
unfoldable pub str_case_eq : Bytes → Bytes → Bool
unfolding str_eq to_lower
str_case_eq a b = str_eq (map to_lower a) (map to_lower b)

-- strstr(s, p) == s
unfoldable pub starts_with : Bytes → Bytes → Bool
starts_with s [] = true
starts_with [] (c ∷ p) = false
starts_with (d ∷ s) (c ∷ p) = d == c && starts_with s p

pub str_eq_iff : (a b : Bytes) → (str_eq a b ≡ true) ↔ (a ≡ b)
unfolding str_eq
str_eq_iff (x ∷ a) (y ∷ b) = ground (arith, str_eq_iff a b)
str_eq_iff _ _ = ground arith

pub str_eq_refl : (a : Bytes) → str_eq a a ≡ true
str_eq_refl a = (str_eq_iff a a).1 refl

-- Equal strings are equal up to case.
pub str_case_eq_refl : (a : Bytes) → str_case_eq a a ≡ true
unfolding str_case_eq
str_case_eq_refl a = str_eq_refl (map to_lower a)

pub str_eq-ne : (a b : Bytes) → a ≢ b → str_eq a b ≡ false
str_eq-ne a b h = elim (Bool-cases (str_eq a b)) [
  | inl same ↦ absurd (h ((str_eq_iff a b).0 same))
  | inr other ↦ other
]
