-- ===== src/Collection/Laws.antt =====
-- A collection is the list of the elements added, in order.
use mathlib.Core.List.{foldl}
use mongo_hhvm_driver.Base.{
  ℕ, suc, ◌+◌, ◌*◌, ◌≤◌, ◌<◌, Option, some, List, [], ◌∷◌, ◌++◌, map, ◌≡◌, ◌⊎◌, inl, inr, refl, ap,
  sym, ◌∙◌, arith, ◌==◌, leb, false, length, length-append, take, drop, Bool-cases,
  take-append-drop, drop-suc,
}
use mongo_hhvm_driver.Str.{int_limit}
use mongo_hhvm_driver.Memory.{Block, length-realloc, take-realloc, store_inside, load-drop}
use mongo_hhvm_driver.Collection.{
  Collection, pointer_size, init_collection, grow, add, iterate_from, iterate,
}

-- With fewer elements the size of the block is an `int`, also once it is doubled.
abbrev pub collection_limit : ℕ
collection_limit = 134217728

module _ {ℓ} {A : Type ℓ} where
  pub record Represents (c : Collection A) (xs : List A) : Type ℓ where
    pub counted : c.count ≡ length xs
    pub allocated : length c.items ≡ c.space
    pub front : take c.count c.items ≡ map some xs
    pub room : c.count ≤ c.space
    pub some_space : 0 < c.space
    -- never more than the first block, or twice what is used
    pub lean : (c.space ≡ 16) ⊎ (c.space ≤ 2 * c.count)

  pub init_collection-Represents : Represents init_collection []
  unfolding init_collection
  init_collection-Represents = record {
    counted = refl;
    allocated = refl;
    front = refl;
    room = omega arith;
    some_space = omega arith;
    lean = inl refl;
  }

  record HasRoom (c : Collection A) (xs : List A) : Type ℓ where
    counted : c.count ≡ length xs
    allocated : length c.items ≡ c.space
    front : take c.count c.items ≡ map some xs
    room : c.count < c.space
    lean : (c.space ≡ 16) ⊎ (c.space ≤ 2 * (c.count + 1))

  grow-HasRoom :
      (c : Collection A) (xs : List A)
      → Represents c xs
      → length xs < collection_limit
      → (g : Collection A) × (grow c ≡ some g) × HasRoom g xs
  unfolding grow
  grow-HasRoom c xs h few = elim (Bool-cases (c.count == c.space)) [
    | inl full ↦
        let fits : leb int_limit (pointer_size * (c.space * 2)) ≡ false =
          ground (arith, h.counted) in
        rw full (
          rw fits (
            _,
            refl,
            record {
              counted = h.counted;
              allocated = length-realloc c.items _ (omega (arith, h.allocated));
              front =
                  take-realloc c.count c.items _ (omega (arith, h.allocated))
                    (omega (arith, h.allocated, h.room))
                  ∙ h.front;
              room = ground (arith, h.some_space);
              lean = inr (ground arith);
            },
          ))
    | inr free ↦ rw free (
      c,
      refl,
      record {
        counted = h.counted;
        allocated = h.allocated;
        front = h.front;
        room = ground (arith, h.room);
        lean = ground (arith, h.lean);
      },
    )
  ]

  map-some-snoc :
      (xs : List A) (x : A)
      → map {B = Option A} some (xs ++ (x ∷ [])) ≡ map some xs ++ (some x ∷ [])
  map-some-snoc [] x = refl
  map-some-snoc (y ∷ xs) x = ap (◌∷◌ (some y)) (map-some-snoc xs x)

  -- To fewer than 2 ^ 27 elements, where a pointer has eight bytes, adding succeeds: no size overflows an
  -- `int`, the write is inside the block, the element comes last, and the block stays at most twice as
  -- large as what is used (or the first sixteen cells).
  pub add-Represents :
      (c : Collection A) (xs : List A) (x : A)
      → Represents c xs
      → length xs < collection_limit
      → (c' : Collection A) × (add c x ≡ some c') × Represents c' (xs ++ (x ∷ []))
  unfolding add
  add-Represents c xs x h few =
      let (grown, eg, g) = grow-HasRoom c xs h few in
      let (items, written, same, behind, _) =
        store_inside grown.items grown.count (some x ∷ []) (omega (arith, g.allocated, g.room)) in
      (
        record { count = grown.count + 1; space = grown.space; items = items },
        rw eg (rw written),
        record {
          counted = omega (arith, g.counted, length-append xs (x ∷ []));
          allocated = same ∙ g.allocated;
          front = behind ∙ ap (λ cells. cells ++ (some x ∷ [])) g.front ∙ sym (map-some-snoc xs x);
          room = omega (arith, g.room);
          some_space = omega (arith, g.room);
          lean = g.lean;
        },
      )

module _ {ℓ κ} {A : Type ℓ} {M : Type κ} (cb : M → A → M) where
  iterate_from-foldl :
      (items : Block A) (i : ℕ) (ys : List A) (rest : Block A) (m : M)
      → drop i items ≡ map some ys ++ rest
      → iterate_from cb items i (length ys) m ≡ some (foldl cb m ys)
  unfolding iterate_from
  iterate_from-foldl items i [] rest m h = refl
  iterate_from-foldl items i (y ∷ ys) rest m h = rw (load-drop items i y (map some ys ++ rest) h) (
      iterate_from-foldl items (suc i) ys rest (cb m y)
        (drop-suc i items (some y) (map some ys ++ rest) h))

  -- Iterating over a collection reads only written cells and calls back on the elements in the
  -- order in which they were added.
  pub iterate-foldl :
      (c : Collection A) (xs : List A) (m : M)
      → Represents c xs
      → iterate cb c m ≡ some (foldl cb m xs)
  unfolding iterate
  iterate-foldl c xs m h = rw h.counted (
      iterate_from-foldl c.items 0 xs (drop c.count c.items) m (
        sym (take-append-drop c.count c.items)
        ∙ ap (λ front. front ++ drop c.count c.items) h.front))
