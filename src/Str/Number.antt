-- ===== src/Str/Number.antt =====
-- `add_int` formats into a block that holds nine characters.
use mongo_hhvm_driver.Base.{
  ℕ, ◌^◌, ◌<◌, some, ◌++◌, ◌≡◌, ◌↔◌, ap, arith, length, length-append, ◌+◌, take, take_all,
  length-take_le, leb, leb→le, inl, inr, Bool-cases,
}
use mongo_hhvm_driver.Base.Int.{pos}
use mongo_hhvm_driver.CLib.{Bytes, print_nat, print_int, length-print_nat}
use mongo_hhvm_driver.Str.{Str, add, add_int}
use mongo_hhvm_driver.Str.Append.{Holds, str_limit, addl-Holds}

fits_nine : (n : ℕ) → (take 9 (print_nat n) ≡ print_nat n) ↔ (n < 10 ^ 9)
fits_nine n = (
  λ whole. elim (Bool-cases (leb (10 ^ 9) n)) [
    | inl big ↦ absurd (
        omega (
          arith,
          (length-print_nat 8 n).0 (leb→le _ _ big),
          length-take_le 9 (print_nat n),
          ap length whole,
        ))
    | inr small ↦ ground arith
  ],
  λ small. elim (Bool-cases (leb (length (print_nat n)) 9)) [
    | inl short ↦ take_all 9 (print_nat n) (leb→le _ _ short)
    | inr long ↦ absurd (omega (arith, (length-print_nat 8 n).1 (ground arith)))
  ],
)

-- `add_int` of a number that is not negative, where the buffer stays below 2 ^ 30 - 512 bytes,
-- succeeds and appends at most nine digits, which are the whole number exactly when it is below 10 ^ 9.
pub add_int-Holds :
    (xs : Str) (bytes : Bytes) (n : ℕ)
    → Holds xs bytes
    → length bytes + 9 < str_limit
    → (xs' : Str) × (add_int xs (pos n) ≡ some xs')
      × Holds xs' (bytes ++ take 9 (print_nat n))
      × ((take 9 (print_nat n) ≡ print_nat n) ↔ (n < 10 ^ 9))
unfolding add_int add print_int
add_int-Holds xs bytes n h short =
    let (xs', added, held, _) =
      addl-Holds xs bytes (take 9 (print_nat n)) h (
        omega
          (arith, length-append bytes (take 9 (print_nat n)), length-take_le 9 (print_nat n))) in
    (xs', added, held, fits_nine n)
