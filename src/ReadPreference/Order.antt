-- ===== src/ReadPreference/Order.antt =====
-- What the lemmas on choosing a server share: counting, sorted lists, and elements of a selection.
use mongo_hhvm_driver.Base.{
  subst, ℕ, zero, suc, ◌≤◌, ◌<◌, Bool, true, false, some, List, [], ◌∷◌, ◌≡◌, refl, arith, length,
  get_elem?, select, Bool-cases, inl, inr, ◌∙◌, sym,
}
use mongo_hhvm_driver.ReadPreference.Sort.{IsSorted, le_by, All, count, Qsort, Compare}

module _ {ℓ} {A : Type ℓ} where
  -- An element of the list, by its index.
  abbrev pub At : List A → A → Type ℓ
  At xs x = (i : ℕ) × (get_elem? xs i ≡ some x)

  pub count-le : (p : A → Bool) (xs : List A) → count p xs ≤ length xs
  count-le p [] = omega arith
  count-le p (x ∷ xs) = ground (arith, count-le p xs)

  pub count_all : (xs : List A) → count (λ _. true) xs ≡ length xs
  count_all [] = refl
  count_all (x ∷ xs) = omega (arith, count_all xs)

  pub All-count : (p : A → Bool) (xs : List A) → All (λ x. p x ≡ true) xs → count p xs ≡ length xs
  All-count p [] h = refl
  All-count p (x ∷ xs) h = rw h.0 (omega (arith, All-count p xs h.1))

  pub count-All : (p : A → Bool) (xs : List A) → count p xs ≡ length xs → All (λ x. p x ≡ true) xs
  count-All p [] h = tt
  count-All p (x ∷ xs) h = elim (Bool-cases (p x)) [
    | inl passes ↦ (passes, count-All p xs (ground arith))
    | inr fails ↦ absurd (ground (arith, count-le p xs))
  ]

  pub All-At {κ} : (P : A → Type κ) (xs : List A) (x : A) → All P xs → At xs x → P x
  All-At P [] x h (i, e) = cc
  All-At P (y ∷ xs) x h (zero, e) = let same : y ≡ x = cc in subst P same h.0
  All-At P (y ∷ xs) x h (suc i, e) = All-At P xs x h.1 (i, e)

  pub All-map {κ κ'} :
      {P : A → Type κ} {Q : A → Type κ'} (f : (x : A) → P x → Q x) (xs : List A)
      → All P xs
      → All Q xs
  All-map f [] h = tt
  All-map f (x ∷ xs) h = (f x h.0, All-map f xs h.1)

  pub All-select {κ} :
      (P : A → Type κ) (p : A → Bool) (xs : List A) → All P xs → All P (select p xs)
  All-select P p [] h = tt
  All-select P p (x ∷ xs) h = elim (Bool-cases (p x)) [
    | inl passes ↦ rw passes (h.0, All-select P p xs h.1)
    | inr fails ↦ rw fails (All-select P p xs h.1)
  ]

  pub select-All : (p : A → Bool) (xs : List A) → All (λ x. p x ≡ true) (select p xs)
  select-All p [] = tt
  select-All p (x ∷ xs) = elim (Bool-cases (p x)) [
    | inl passes ↦ rw passes (passes, select-All p xs)
    | inr fails ↦ rw fails (select-All p xs)
  ]

  pub count-select-le : (q p : A → Bool) (xs : List A) → count q (select p xs) ≤ count q xs
  count-select-le q p [] = omega arith
  count-select-le q p (x ∷ xs) = ground (arith, count-select-le q p xs)

  pub get_elem?-total : (xs : List A) (i : ℕ) → i < length xs → (x : A) × (get_elem? xs i ≡ some x)
  get_elem?-total [] i h = absurd (omega arith)
  get_elem?-total (x ∷ xs) zero h = (x, refl)
  get_elem?-total (x ∷ xs) (suc i) h = get_elem?-total xs i (omega arith)

module _ {ℓ} {A : Type ℓ} where
  pub count_pos-At : (p : A → Bool) (xs : List A) (x : A) → At xs x → p x ≡ true → 0 < count p xs
  count_pos-At p [] x (i, e) h = cc
  count_pos-At p (y ∷ xs) x (zero, e) h = let same : y ≡ x = cc in rw same (rw h (omega arith))
  count_pos-At p (y ∷ xs) x (suc i, e) h = omega (arith, count_pos-At p xs x (i, e) h)

  -- Two places of the list that pass the test count twice.
  pub count_two :
      (p : A → Bool) (xs : List A) (i j : ℕ) (x y : A)
      → i < j
      → get_elem? xs i ≡ some x
      → get_elem? xs j ≡ some y
      → p x ≡ true
      → p y ≡ true
      → 2 ≤ count p xs
  count_two p [] i j x y lt e f h k = cc
  count_two p (z ∷ xs) i zero x y lt e f h k = absurd (omega arith)
  count_two p (z ∷ xs) zero (suc j) x y lt e f h k =
      let same : z ≡ x = cc in rw same (rw h (omega (arith, count_pos-At p xs y (j, f) k)))
  count_two p (z ∷ xs) (suc i) (suc j) x y lt e f h k =
      omega (arith, count_two p xs i j x y (omega arith) e f h k)

  pub count_none : (p : A → Bool) (xs : List A) → All (λ x. p x ≡ false) xs → count p xs ≡ 0
  count_none p [] h = refl
  count_none p (x ∷ xs) h = rw h.0 (omega (arith, count_none p xs h.1))

  pub select-IsSorted :
      (cmp : Compare A) (p : A → Bool) (xs : List A) → IsSorted cmp xs → IsSorted cmp (select p xs)
  select-IsSorted cmp p [] h = tt
  select-IsSorted cmp p (x ∷ xs) h = elim (Bool-cases (p x)) [
    | inl passes ↦
        rw passes (All-select (λ y. le_by cmp x y ≡ true) p xs h.0, select-IsSorted cmp p xs h.1)
    | inr fails ↦ rw fails (select-IsSorted cmp p xs h.1)
  ]

  pub IsSorted-At :
      (cmp : Compare A) (xs : List A) (i j : ℕ) (x y : A)
      → IsSorted cmp xs
      → i < j
      → get_elem? xs i ≡ some x
      → get_elem? xs j ≡ some y
      → le_by cmp x y ≡ true
  IsSorted-At cmp [] i j x y s lt e f = cc
  IsSorted-At cmp (z ∷ xs) i zero x y s lt e f = absurd (omega arith)
  IsSorted-At cmp (z ∷ xs) zero (suc j) x y s lt e f =
      let same : z ≡ x = cc in rw (← same) (All-At (λ w. le_by cmp z w ≡ true) xs y s.0 (j, f))
  IsSorted-At cmp (z ∷ xs) (suc i) (suc j) x y s lt e f =
      IsSorted-At cmp xs i j x y s.1 (omega arith) e f

module _ {ℓ} {A : Type ℓ} (qsort : Qsort A) (cmp : Compare A) where
  pub length-sort : (xs : List A) → length (qsort.sort cmp xs) ≡ length xs
  length-sort xs =
      sym (count_all (qsort.sort cmp xs)) ∙ qsort.same_elements cmp (λ _. true) xs ∙ count_all xs

  -- What holds of every element holds of every element of the sorted list.
  pub All-sort :
      (p : A → Bool) (xs : List A)
      → All (λ x. p x ≡ true) xs
      → All (λ x. p x ≡ true) (qsort.sort cmp xs)
  All-sort p xs h =
      count-All p (qsort.sort cmp xs)
        (qsort.same_elements cmp p xs ∙ All-count p xs h ∙ sym (length-sort xs))

  pub All-unsort :
      (p : A → Bool) (xs : List A)
      → All (λ x. p x ≡ true) (qsort.sort cmp xs)
      → All (λ x. p x ≡ true) xs
  All-unsort p xs h =
      count-All p xs
        (sym (qsort.same_elements cmp p xs) ∙ All-count p (qsort.sort cmp xs) h ∙ length-sort xs)
