-- ===== src/ReadPreference/Sort.antt =====
-- The comparison functions and `mongo_sort_servers`. `qsort` is used through what the C standard
-- says of it: the same elements, in the order of the comparison; of equal elements it says nothing.
use mongo_hhvm_driver.Base.{
  arith, ℕ, ◌+◌, Bool, true, false, Option, none, some, List, [], ◌∷◌, ◌≡◌, ltb, if◌then◌else◌,
}
use mongo_hhvm_driver.Base.Int.{ℤ, pos, negsuc, leb_ℤ, ltb_ℤ}
use mongo_hhvm_driver.Types.{node_bit, RpType, Connection}

abbrev pub Compare {ℓ} : Type ℓ → Type ℓ
Compare A = A → A → ℤ

-- "at most" by a comparison function
abbrev pub le_by {ℓ} : {A : Type ℓ} → Compare A → A → A → Bool
le_by cmp a b = leb_ℤ (cmp a b) (pos 0)

abbrev pub All {ℓ κ} : {A : Type ℓ} → (A → Type κ) → List A → Type κ
All P [] = Unit
All P (x ∷ xs) = P x × All P xs

abbrev pub IsSorted {ℓ} : {A : Type ℓ} → Compare A → List A → Type 0
IsSorted cmp [] = Unit
IsSorted cmp (x ∷ xs) = All (λ y. le_by cmp x y ≡ true) xs × IsSorted cmp xs

-- How many elements pass a test: with every test, the elements up to their order.
abbrev pub count {ℓ} : {A : Type ℓ} → (A → Bool) → List A → ℕ
count p [] = 0
count p (x ∷ xs) = (if p x then 1 else 0) + count p xs

pub record IsOrder {ℓ} {A : Type ℓ} (cmp : Compare A) : Type ℓ where
  pub total : (a b : A) → le_by cmp a b ≡ false → le_by cmp b a ≡ true
  pub transitive : (a b c : A) → le_by cmp a b ≡ true → le_by cmp b c ≡ true → le_by cmp a c ≡ true

-- qsort(xs, length, size, cmp)
pub record Qsort {ℓ} (A : Type ℓ) : Type ℓ where
  pub sort : Compare A → List A → List A
  pub same_elements :
      (cmp : Compare A) (p : A → Bool) (xs : List A) → count p (sort cmp xs) ≡ count p xs
  pub in_order : (cmp : Compare A) (xs : List A) → IsOrder cmp → IsSorted cmp (sort cmp xs)

-- mongo_rp_sort_any: by ping time
unfoldable pub sort_any : Compare Connection
sort_any a b =
    if ltb_ℤ b.ping_ms a.ping_ms
    then pos 1
    else if ltb_ℤ a.ping_ms b.ping_ms
    then negsuc 0
    else pos 0

-- mongo_rp_sort_primary_preferred: the smaller type first, then by ping time
unfoldable pub sort_primary_preferred : Compare Connection
unfolding sort_any
sort_primary_preferred a b =
    if ltb (node_bit b.connection_type) (node_bit a.connection_type)
    then pos 1
    else if ltb (node_bit a.connection_type) (node_bit b.connection_type)
    then negsuc 0
    else sort_any a b

-- mongo_rp_sort_secondary_preferred: the larger type first, then by ping time
unfoldable pub sort_secondary_preferred : Compare Connection
unfolding sort_any
sort_secondary_preferred a b =
    if ltb (node_bit a.connection_type) (node_bit b.connection_type)
    then pos 1
    else if ltb (node_bit b.connection_type) (node_bit a.connection_type)
    then negsuc 0
    else sort_any a b

-- The `switch` of `mongo_sort_servers`; the default returns NULL.
unfoldable pub sort_function : RpType → Option (Compare Connection)
sort_function RpType.primary = some sort_any
sort_function RpType.primary_preferred = some sort_primary_preferred
sort_function RpType.secondary = some sort_any
sort_function RpType.secondary_preferred = some sort_secondary_preferred
sort_function RpType.nearest = some sort_any
sort_function RpType.any = none
sort_function RpType.other = none

-- mongo_sort_servers; `none` is NULL.
unfoldable pub sort_servers : Qsort Connection → List Connection → RpType → Option (List Connection)
sort_servers qsort col rp_type = elim (sort_function rp_type) [
  | none ↦ none
  | some cmp ↦ some (qsort.sort cmp col)
]

pub sort_any-IsOrder : IsOrder sort_any
unfolding sort_any
sort_any-IsOrder = record { total = λ a b h. ground arith; transitive = λ a b c h k. ground arith }

pub sort_primary_preferred-IsOrder : IsOrder sort_primary_preferred
unfolding sort_primary_preferred
sort_primary_preferred-IsOrder = record {
  total = λ a b h. ground arith;
  transitive = λ a b c h k. ground arith;
}

pub sort_secondary_preferred-IsOrder : IsOrder sort_secondary_preferred
unfolding sort_secondary_preferred
sort_secondary_preferred-IsOrder = record {
  total = λ a b h. ground arith;
  transitive = λ a b c h k. ground arith;
}
