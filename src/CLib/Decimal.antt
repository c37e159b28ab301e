-- ===== src/CLib/Decimal.antt =====
-- `%d`, `strtol(s, &end, 10)` and `atoi`, and what they make of one another.
use native.Mathlib.Nat.{pow-suc, one-le-pow}
use mongo_hhvm_driver.CLib.Equal.{Bytes}
use mongo_hhvm_driver.CLib.Split.{Lacks}
use mongo_hhvm_driver.Base.{
  ◌≢◌, sym, ℕ, zero, suc, ◌+◌, ◌-◌, ◌*◌, ◌/◌, ◌%◌, ◌^◌, ◌≤◌, ◌<◌, Bool, true, false, not, ◌&&◌,
  ◌||◌, [], ◌∷◌, ◌++◌, append_assoc, ◌≡◌, refl, ◌∙◌, arith, ltb, leb, ◌==◌, if◌then◌else◌, length,
  length-append, Bool-cases, inl, inr, ap, ltb→lt, leb→le, ◌↔◌,
}
use mongo_hhvm_driver.Base.Int.{ℤ, pos, negsuc, to_int, IsInt, to_int_lem}

abbrev pub is_digit : ℕ → Bool
is_digit c = leb b'0' c && leb c b'9'

-- isspace, in the "C" locale
abbrev is_space : ℕ → Bool
is_space c = c == 32 || leb 9 c && leb c 13

digits : ℕ → ℕ → Bytes
digits zero n = []
digits (suc f) n =
    let rest = digits f (n / 10) in
    if ltb n 10 then (b'0' + n) ∷ [] else rest ++ ((b'0' + n % 10) ∷ [])

-- sprintf("%d") of a number that is not negative; a number has fewer digits than its successor
unfoldable pub print_nat : ℕ → Bytes
unfolding digits
print_nat n = digits (suc n) n

-- sprintf("%d")
unfoldable pub print_int : ℤ → Bytes
unfolding print_nat
print_int (pos n) = print_nat n
print_int (negsuc n) = b'-' ∷ print_nat (suc n)

read_digits : ℕ → Bytes → ℕ × Bytes
read_digits acc [] = (acc, [])
read_digits acc (c ∷ cs) =
    if is_digit c then read_digits (acc * 10 + (c - b'0')) cs else (acc, c ∷ cs)

abbrev long_max : ℕ
long_max = 2 ^ 63 - 1

-- The value, saturated at LONG_MAX or LONG_MIN.
signed_long : Bool → ℕ → ℤ
signed_long false n = pos (if leb n long_max then n else long_max)
signed_long true zero = pos 0
signed_long true (suc n) = negsuc (if leb n long_max then n else long_max)

-- `s` is the whole argument: where no digit stands, `end` is `s` itself.
after_sign : Bytes → Bool → Bytes → ℤ × Bytes
unfolding read_digits signed_long
after_sign s negative [] = (pos 0, s)
after_sign s negative (c ∷ cs) =
    let (n, end) = read_digits 0 (c ∷ cs) in
    if is_digit c then (signed_long negative n, end) else (pos 0, s)

after_space : Bytes → Bytes → ℤ × Bytes
unfolding after_sign
after_space s [] = (pos 0, s)
after_space s (c ∷ cs) =
    if c == b'-'
    then after_sign s true cs
    else if c == b'+'
    then after_sign s false cs
    else after_sign s false (c ∷ cs)

skip_space : Bytes → Bytes
skip_space [] = []
skip_space (c ∷ cs) = if is_space c then skip_space cs else c ∷ cs

-- strtol(s, &end, 10): the value and the rest from `end` on
unfoldable pub strtol : Bytes → ℤ × Bytes
unfolding after_space skip_space
strtol s = after_space s (skip_space s)

-- atoi(s): `(int) strtol(s, NULL, 10)`
unfoldable pub atoi : Bytes → ℤ
unfolding strtol
atoi s = to_int (strtol s).0

-- What may follow a number: nothing, or a byte that is no digit.
abbrev pub stops : Bytes → Bool
stops [] = true
stops (c ∷ _) = not (is_digit c)

read_digits-stops : (n : ℕ) (rest : Bytes) → stops rest ≡ true → read_digits n rest ≡ (n, rest)
unfolding read_digits
read_digits-stops n [] h = refl
read_digits-stops n (c ∷ cs) h = ground arith

read_digits_step :
    (n d : ℕ) (rest : Bytes)
    → d < 10
    → read_digits n ((b'0' + d) ∷ rest) ≡ read_digits (n * 10 + d) rest
unfolding read_digits
read_digits_step n d rest h = ground arith

read_digits-digits :
    (f n : ℕ) (rest : Bytes) → n < f → read_digits 0 (digits f n ++ rest) ≡ read_digits n rest
unfolding digits
read_digits-digits zero n rest h = elim h [ ]
read_digits-digits (suc f) n rest h = elim (Bool-cases (ltb n 10)) [
  | inl small ↦
      rw small
        (read_digits_step 0 n rest (ground arith) ∙ ap (λ k. read_digits k rest) (omega arith))
  | inr big ↦ rw big (
      rw append_assoc (
        read_digits-digits f (n / 10) ((b'0' + n % 10) ∷ rest) (ground arith)
        ∙ read_digits_step (n / 10) (n % 10) rest (omega arith)
        ∙ ap (λ k. read_digits k rest) (omega arith)))
]

-- Only digits, and at least one.
abbrev pub IsNumeral : Bytes → Type 0
IsNumeral [] = ⊥
IsNumeral (c ∷ []) = is_digit c ≡ true
IsNumeral (c ∷ d ∷ ds) = (is_digit c ≡ true) × IsNumeral (d ∷ ds)

IsNumeral-concat :
    (ds : Bytes) (d : ℕ) → d < 10 → IsNumeral ds → IsNumeral (ds ++ ((b'0' + d) ∷ []))
IsNumeral-concat [] d h k = absurd k
IsNumeral-concat (c ∷ []) d h k = (k, ground arith)
IsNumeral-concat (c ∷ e ∷ ds) d h k = (k.0, IsNumeral-concat (e ∷ ds) d h k.1)

digits-IsNumeral : (f n : ℕ) → n < f → IsNumeral (digits f n)
unfolding digits
digits-IsNumeral zero n h = elim h [ ]
digits-IsNumeral (suc f) n h = elim (Bool-cases (ltb n 10)) [
  | inl small ↦ rw small (ground arith)
  | inr big ↦ rw big (
      IsNumeral-concat (digits f (n / 10)) (n % 10) (omega arith)
        (digits-IsNumeral f (n / 10) (ground arith)))
]

pub print_nat-IsNumeral : (n : ℕ) → IsNumeral (print_nat n)
unfolding print_nat
print_nat-IsNumeral n = digits-IsNumeral (suc n) n (omega arith)

-- A byte that is no digit is not in a numeral.
pub IsNumeral-Lacks : (c : ℕ) (ds : Bytes) → is_digit c ≡ false → IsNumeral ds → Lacks c ds
IsNumeral-Lacks c [] h k = tt
IsNumeral-Lacks c (d ∷ []) h k = (λ e. cc (e, h, k), tt)
IsNumeral-Lacks c (d ∷ e ∷ ds) h k = (λ q. cc (q, h, k.0), IsNumeral-Lacks c (e ∷ ds) h k.1)

after_sign-IsNumeral :
    (s ds rest : Bytes) (b : Bool)
    → IsNumeral ds
    → (after_sign s b (ds ++ rest)).0 ≡ signed_long b (read_digits 0 (ds ++ rest)).0
unfolding after_sign
after_sign-IsNumeral s [] rest b h = absurd h
after_sign-IsNumeral s (c ∷ []) rest b h = rw h
after_sign-IsNumeral s (c ∷ d ∷ ds) rest b h = rw h.0

after_space-IsNumeral :
    (s ds rest : Bytes)
    → IsNumeral ds
    → after_space s (ds ++ rest) ≡ after_sign s false (ds ++ rest)
unfolding after_space
after_space-IsNumeral s [] rest h = absurd h
after_space-IsNumeral s (c ∷ []) rest h = ground arith
after_space-IsNumeral s (c ∷ d ∷ ds) rest h = ground arith

skip_space-IsNumeral : (ds rest : Bytes) → IsNumeral ds → skip_space (ds ++ rest) ≡ ds ++ rest
unfolding skip_space
skip_space-IsNumeral [] rest h = absurd h
skip_space-IsNumeral (c ∷ []) rest h = ground arith
skip_space-IsNumeral (c ∷ d ∷ ds) rest h = ground arith

after_sign-print_nat :
    (s : Bytes) (b : Bool) (n : ℕ) (rest : Bytes)
    → stops rest ≡ true
    → (after_sign s b (print_nat n ++ rest)).0 ≡ signed_long b n
unfolding print_nat
after_sign-print_nat s b n rest h =
    after_sign-IsNumeral s (digits (suc n) n) rest b (digits-IsNumeral (suc n) n (omega arith))
    ∙ ap (λ (r : ℕ × Bytes). signed_long b r.0)
        (read_digits-digits (suc n) n rest (omega arith) ∙ read_digits-stops n rest h)

signed_long_pos : (n : ℕ) → n < 2 ^ 31 → signed_long false n ≡ pos n
unfolding signed_long
signed_long_pos n h = ground arith

signed_long_neg : (n : ℕ) → n < 2 ^ 31 → signed_long true (suc n) ≡ negsuc n
unfolding signed_long
signed_long_neg n h = ground arith

strtol-print_int :
    (z : ℤ) (rest : Bytes) → stops rest ≡ true → IsInt z → (strtol (print_int z ++ rest)).0 ≡ z
unfolding strtol print_int
strtol-print_int (pos n) rest h k =
    let num = print_nat-IsNumeral n in
    rw (skip_space-IsNumeral (print_nat n) rest num) (
      rw (after_space-IsNumeral (print_nat n ++ rest) (print_nat n) rest num)
        (after_sign-print_nat _ false n rest h ∙ signed_long_pos n k.0))
strtol-print_int (negsuc n) rest h k =
    after_sign-print_nat _ true (suc n) rest h ∙ signed_long_neg n (omega arith)

-- `atoi` reads back what `%d` wrote, whatever follows that does not begin with a digit.
pub atoi-print_int :
    (z : ℤ) (rest : Bytes) → stops rest ≡ true → IsInt z → atoi (print_int z ++ rest) ≡ z
unfolding atoi
atoi-print_int z rest h k = ap to_int (strtol-print_int z rest h k) ∙ to_int_lem z k

pub atoi-print_nat :
    (n : ℕ) (rest : Bytes) → stops rest ≡ true → n < 2 ^ 31 → atoi (print_nat n ++ rest) ≡ pos n
unfolding print_int
atoi-print_nat n rest h k = atoi-print_int (pos n) rest h (k, omega arith)

pow10-suc : (k : ℕ) → (10 ^ suc k ≡ 10 * 10 ^ k) × (0 < 10 ^ k)
pow10-suc k = (omega (arith, pow-suc 10 k), omega (arith, one-le-pow k 10 (omega arith)))

snoc_digit : (ds : Bytes) (d : ℕ) → length (ds ++ (d ∷ [])) ≡ suc (length ds)
snoc_digit ds d = omega (arith, length-append ds (d ∷ []))

digits-length_lower : (k f n : ℕ) → n < f → 10 ^ k ≤ n → k < length (digits f n)
unfolding digits
digits-length_lower k zero n h g = elim h [ ]
digits-length_lower zero (suc f) n h g =
    ground (arith, snoc_digit (digits f (n / 10)) (b'0' + n % 10))
digits-length_lower (suc k) (suc f) n h g = elim (Bool-cases (ltb n 10)) [
  | inl small ↦ absurd (omega (arith, pow10-suc k, ltb→lt n 10 small))
  | inr big ↦ rw big (
      omega (
        arith,
        snoc_digit (digits f (n / 10)) (b'0' + n % 10),
        digits-length_lower k f (n / 10) (ground arith) (omega (arith, pow10-suc k)),
      ))
]

digits-length_upper : (k f n : ℕ) → n < f → n < 10 ^ suc k → length (digits f n) ≤ suc k
unfolding digits
digits-length_upper k zero n h g = elim h [ ]
digits-length_upper zero (suc f) n h g = ground (arith, pow10-suc 0)
digits-length_upper (suc k) (suc f) n h g = elim (Bool-cases (ltb n 10)) [
  | inl small ↦ rw small (omega arith)
  | inr big ↦ rw big (
      omega (
        arith,
        snoc_digit (digits f (n / 10)) (b'0' + n % 10),
        digits-length_upper k f (n / 10) (ground arith) (omega (arith, pow10-suc (suc k))),
      ))
]

-- A number has more than k digits exactly from the k-th power of ten on.
pub length-print_nat : (k n : ℕ) → (10 ^ suc k ≤ n) ↔ (suc k < length (print_nat n))
unfolding print_nat
length-print_nat k n = (
  digits-length_lower (suc k) (suc n) n (omega arith),
  λ long. elim (Bool-cases (leb (10 ^ suc k) n)) [
    | inl le ↦ leb→le _ _ le
    | inr lt ↦ absurd (omega (arith, digits-length_upper k (suc n) n (omega arith) (ground arith)))
  ],
)

-- Numbers hold neither separators nor anything else but digits and a sign.
pub print_nat-Lacks : (c n : ℕ) → is_digit c ≡ false → Lacks c (print_nat n)
print_nat-Lacks c n h = IsNumeral-Lacks c (print_nat n) h (print_nat-IsNumeral n)

pub print_int-Lacks : (c : ℕ) (z : ℤ) → is_digit c ≡ false → c ≢ b'-' → Lacks c (print_int z)
unfolding print_int
print_int-Lacks c (pos n) h k = print_nat-Lacks c n h
print_int-Lacks c (negsuc n) h k = (λ e. k (sym e), print_nat-Lacks c (suc n) h)
