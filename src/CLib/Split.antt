-- ===== src/CLib/Split.antt =====
-- `strchr` and `strrchr` with what the sources do at once with the pointer they return: copy what
-- stands before it, and go on behind it. `none` is the NULL of a byte that does not occur.
use mongo_hhvm_driver.CLib.Equal.{Bytes}
use mongo_hhvm_driver.Base.{
  ◌>>=◌, is_some, true, false, Bool-cases, inl, inr, ap, ◌∙◌, sym, ℕ, Bool, Option, none, some, [],
  ◌∷◌, ◌++◌, ◌≡◌, ◌≢◌, refl, arith, ◌==◌, ==_iff, if◌then◌else◌,
}

before_cons : ℕ → Option (Bytes × Bytes) → Option (Bytes × Bytes)
before_cons x none = none
before_cons x (some (u, v)) = some (x ∷ u, v)

-- p = strchr(s, c): the bytes before p, and those from p + 1 on
unfoldable pub split_at : ℕ → Bytes → Option (Bytes × Bytes)
unfolding before_cons
split_at c [] = none
split_at c (x ∷ xs) = if x == c then some ([], xs) else before_cons x (split_at c xs)

later_or : ℕ → Bytes → Bool → Option (Bytes × Bytes) → Option (Bytes × Bytes)
later_or x xs here (some (u, v)) = some (x ∷ u, v)
later_or x xs here none = if here then some ([], xs) else none

-- p = strrchr(s, c): the bytes before p, and those from p + 1 on
unfoldable pub rsplit_at : ℕ → Bytes → Option (Bytes × Bytes)
unfolding later_or
rsplit_at c [] = none
rsplit_at c (x ∷ xs) = later_or x xs (x == c) (rsplit_at c xs)

-- The byte does not occur.
abbrev pub Lacks : ℕ → Bytes → Type 0
Lacks c [] = Unit
Lacks c (x ∷ xs) = (x ≢ c) × Lacks c xs

pub Lacks-append : (c : ℕ) (xs ys : Bytes) → Lacks c xs → Lacks c ys → Lacks c (xs ++ ys)
Lacks-append c [] ys h k = k
Lacks-append c (x ∷ xs) ys h k = (h.0, Lacks-append c xs ys h.1 k)

pub split_at-append :
    (c : ℕ) (xs ys : Bytes) → Lacks c xs → split_at c (xs ++ (c ∷ ys)) ≡ some (xs, ys)
unfolding split_at
split_at-append c [] ys h = rw ((==_iff c c).1 refl)
split_at-append c (x ∷ xs) ys h = ground (arith, split_at-append c xs ys h.1)

pub split_at-Lacks : (c : ℕ) (xs : Bytes) → Lacks c xs → split_at c xs ≡ none
unfolding split_at
split_at-Lacks c [] h = refl
split_at-Lacks c (x ∷ xs) h = ground (arith, split_at-Lacks c xs h.1)

abbrev extend : Bytes → Option (Bytes × Bytes) → Option (Bytes × Bytes)
extend rest none = none
extend rest (some (u, v)) = some (u, v ++ rest)

before_cons-extend :
    (x : ℕ) (rest : Bytes) (o : Option (Bytes × Bytes))
    → before_cons x (extend rest o) ≡ extend rest (before_cons x o)
unfolding before_cons
before_cons-extend x rest none = refl
before_cons-extend x rest (some (u, v)) = refl

is_some-before_cons : (x : ℕ) (o : Option (Bytes × Bytes)) → is_some (before_cons x o) ≡ is_some o
unfolding before_cons
is_some-before_cons x none = refl
is_some-before_cons x (some (u, v)) = refl

split_at-extend :
    (c : ℕ) (s rest : Bytes)
    → is_some (split_at c s) ≡ true
    → split_at c (s ++ rest) ≡ extend rest (split_at c s)
unfolding split_at
split_at-extend c [] rest h = cc
split_at-extend c (x ∷ xs) rest h = elim (Bool-cases (x == c)) [
  | inl same ↦ rw same refl
  | inr other ↦
      let there : is_some (split_at c xs) ≡ true =
        sym (is_some-before_cons x (split_at c xs)) ∙ rw other at h in
      rw other (
        ap (before_cons x) (split_at-extend c xs rest there)
        ∙ before_cons-extend x rest (split_at c xs))
]

first_of-extend :
    (rest : Bytes) (o : Option (Bytes × Bytes))
    → (extend rest o >>= λ parts. some parts.0) ≡ (o >>= λ parts. some parts.0)
first_of-extend rest none = refl
first_of-extend rest (some (u, v)) = refl

-- What stands behind the first `c` does not matter.
pub split_at-prefix :
    (c : ℕ) (s rest : Bytes)
    → is_some (split_at c s) ≡ true
    → (split_at c (s ++ rest) >>= λ parts. some parts.0) ≡ (split_at c s >>= λ parts. some parts.0)
split_at-prefix c s rest h =
    ap (λ o. o >>= λ parts. some parts.0) (split_at-extend c s rest h)
    ∙ first_of-extend rest (split_at c s)

rsplit_at-Lacks : (c : ℕ) (xs : Bytes) → Lacks c xs → rsplit_at c xs ≡ none
unfolding rsplit_at
rsplit_at-Lacks c [] h = refl
rsplit_at-Lacks c (x ∷ xs) h = ground (arith, rsplit_at-Lacks c xs h.1)

pub rsplit_at-append :
    (c : ℕ) (xs ys : Bytes) → Lacks c ys → rsplit_at c (xs ++ (c ∷ ys)) ≡ some (xs, ys)
unfolding rsplit_at
rsplit_at-append c [] ys h = rw (rsplit_at-Lacks c ys h, (==_iff c c).1 refl)
rsplit_at-append c (x ∷ xs) ys h = rw (rsplit_at-append c xs ys h)

pub rsplit_at-cons :
    (c x : ℕ) (xs : Bytes) {u v : Bytes}
    → rsplit_at c xs ≡ some (u, v)
    → rsplit_at c (x ∷ xs) ≡ some (x ∷ u, v)
unfolding rsplit_at
rsplit_at-cons c x xs h = rw h

pub rsplit_at-prefix :
    (c : ℕ) (xs ys : Bytes) {u v : Bytes}
    → rsplit_at c ys ≡ some (u, v)
    → rsplit_at c (xs ++ ys) ≡ some (xs ++ u, v)
rsplit_at-prefix c [] ys h = h
rsplit_at-prefix c (x ∷ xs) ys h = rsplit_at-cons c x (xs ++ ys) (rsplit_at-prefix c xs ys h)

first_part :
    (x : ℕ) (o : Option (Bytes × Bytes))
    → (before_cons x o >>= λ parts. some parts.0)
      ≡ ((o >>= λ parts. some parts.0) >>= λ before. some (x ∷ before))
unfolding before_cons
first_part x none = refl
first_part x (some (u, v)) = refl

-- What stands in front of the byte, where the first byte is another
pub split_at-cons :
    (c x : ℕ) (xs : Bytes)
    → (x == c) ≡ false
    → (split_at c (x ∷ xs) >>= λ parts. some parts.0)
      ≡ ((split_at c xs >>= λ parts. some parts.0) >>= λ before. some (x ∷ before))
unfolding split_at
split_at-cons c x xs other = rw other (first_part x (split_at c xs))
