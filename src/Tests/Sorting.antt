-- ===== src/Tests/Sorting.antt =====
-- Insertion sort meets what is assumed of `qsort`.
use mongo_hhvm_driver.Base.{
  Bool, true, List, [], ◌∷◌, ◌≡◌, refl, arith, if◌then◌else◌, Bool-cases, inl, inr,
}
use mongo_hhvm_driver.ReadPreference.Sort.{Compare, le_by, All, IsSorted, count, IsOrder, Qsort}
use mongo_hhvm_driver.ReadPreference.Order.{All-map}

module _ {ℓ} {A : Type ℓ} where
  abbrev pub insert : Compare A → A → List A → List A
  insert cmp x [] = x ∷ []
  insert cmp x (y ∷ ys) =
      let rest = insert cmp x ys in if le_by cmp x y then x ∷ y ∷ ys else y ∷ rest

  abbrev pub insertion_sort : Compare A → List A → List A
  insertion_sort cmp [] = []
  insertion_sort cmp (x ∷ xs) = insert cmp x (insertion_sort cmp xs)

  count-insert :
      (cmp : Compare A) (p : A → Bool) (x : A) (ys : List A)
      → count p (insert cmp x ys) ≡ count p (x ∷ ys)
  count-insert cmp p x [] = refl
  count-insert cmp p x (y ∷ ys) = elim (Bool-cases (le_by cmp x y)) [
    | inl le ↦ rw le
    | inr gt ↦ rw gt (omega (arith, count-insert cmp p x ys))
  ]

  pub count-insertion_sort :
      (cmp : Compare A) (p : A → Bool) (xs : List A) → count p (insertion_sort cmp xs) ≡ count p xs
  count-insertion_sort cmp p [] = refl
  count-insertion_sort cmp p (x ∷ xs) =
      omega (arith, count-insert cmp p x (insertion_sort cmp xs), count-insertion_sort cmp p xs)

  All-insert {κ} :
      (P : A → Type κ) (cmp : Compare A) (x : A) (ys : List A)
      → P x
      → All P ys
      → All P (insert cmp x ys)
  All-insert P cmp x [] h k = (h, k)
  All-insert P cmp x (y ∷ ys) h k = elim (Bool-cases (le_by cmp x y)) [
    | inl le ↦ rw le (h, k)
    | inr gt ↦ rw gt (k.0, All-insert P cmp x ys h k.1)
  ]

  insert-IsSorted :
      (cmp : Compare A) (o : IsOrder cmp) (x : A) (ys : List A)
      → IsSorted cmp ys
      → IsSorted cmp (insert cmp x ys)
  insert-IsSorted cmp o x [] s = (tt, tt)
  insert-IsSorted cmp o x (y ∷ ys) s = elim (Bool-cases (le_by cmp x y)) [
    | inl le ↦ rw le ((le, All-map (λ z h. o.transitive x y z le h) ys s.0), s)
    | inr gt ↦ rw gt (
      All-insert (λ z. le_by cmp y z ≡ true) cmp x ys (o.total x y gt) s.0,
      insert-IsSorted cmp o x ys s.1,
    )
  ]

  pub insertion_sort-IsSorted :
      (cmp : Compare A) (xs : List A) → IsOrder cmp → IsSorted cmp (insertion_sort cmp xs)
  insertion_sort-IsSorted cmp [] o = tt
  insertion_sort-IsSorted cmp (x ∷ xs) o =
      insert-IsSorted cmp o x (insertion_sort cmp xs) (insertion_sort-IsSorted cmp xs o)

abbrev pub by_insertion {ℓ} : {A : Type ℓ} → Qsort A
by_insertion = record {
  sort = insertion_sort;
  same_elements = count-insertion_sort;
  in_order = insertion_sort-IsSorted;
}
