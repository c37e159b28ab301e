-- ===== src/Collection/Gather.antt =====
-- The loop by which src/mcon/read_preference.c makes each of its collections: a fresh collection, to
-- which the elements that pass a test are added in turn.
use mongo_hhvm_driver.Base.{
  ◌>>=◌, Bool, Option, some, List, [], ◌∷◌, ◌++◌, append-nil, append_assoc, subst, ◌≡◌, refl,
  if◌then◌else◌, select, Bool-cases, inl, inr, ap, arith, length, length-append, ◌<◌,
}
use mongo_hhvm_driver.Collection.{Collection, init_collection, add}
use mongo_hhvm_driver.Collection.Laws.{
  Represents, collection_limit, init_collection-Represents, add-Represents,
}

module _ {ℓ} {A : Type ℓ} (test : A → Bool) where
  unfoldable pub gather_onto : Collection A → List A → Option (Collection A)
  gather_onto c [] = some c
  gather_onto c (x ∷ xs) = do c' ← if test x then add c x else some c; gather_onto c' xs

  unfoldable pub gather : List A → Option (Collection A)
  gather xs = gather_onto init_collection xs

  gather_onto-Represents :
      (c : Collection A) (before xs : List A)
      → Represents c before
      → length (before ++ xs) < collection_limit
      → (c' : Collection A) × (gather_onto c xs ≡ some c')
        × Represents c' (before ++ select test xs)
  unfolding gather_onto
  gather_onto-Represents c before [] h few = (c, refl, rw append-nil h)
  gather_onto-Represents c before (x ∷ xs) h few = elim (Bool-cases (test x)) [
    | inl passes ↦
        let (c₁, added, h₁) =
          add-Represents c before x h (omega (arith, length-append before (x ∷ xs))) in
        let (c₂, rest, h₂) =
          gather_onto-Represents c₁ (before ++ (x ∷ [])) xs h₁
            (omega (arith, ap length (append_assoc before (x ∷ []) xs))) in
        (
          c₂,
          rw passes (rw added rest),
          rw passes (subst (Represents c₂) (append_assoc before (x ∷ []) (select test xs)) h₂),
        )
    | inr fails ↦
        let (c₂, rest, h₂) =
          gather_onto-Represents c before xs h
            (omega (arith, length-append before (x ∷ xs), length-append before xs)) in
        (c₂, rw fails rest, rw fails h₂)
  ]

  -- Over fewer than 2 ^ 27 elements the loop never overflows and never writes outside the block, and
  -- ends with the elements that pass, in their order.
  pub gather-Represents :
      (xs : List A)
      → length xs < collection_limit
      → (c : Collection A) × (gather xs ≡ some c) × Represents c (select test xs)
  unfolding gather
  gather-Represents xs few =
      gather_onto-Represents init_collection [] xs init_collection-Represents few
