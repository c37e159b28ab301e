-- ===== src/Memory.antt =====
-- Heap blocks of the C library, for the growing buffers of src/mcon/str.c and
-- src/mcon/collection.c: a cell is `none` until it is written, and a write past the end of a block
-- is undefined behaviour, `none`.
use mongo_hhvm_driver.Base.{
  ℕ, zero, suc, ◌+◌, ◌-◌, ◌≤◌, Option, none, some, List, [], ◌∷◌, ◌++◌, ◌≡◌, refl, ap, ◌∙◌, sym,
  arith, leb, le→leb, if◌then◌else◌, length, take, drop, replicate, get_elem?, length-append,
  length-take, length-drop, length-replicate, take_all, get_elem?-drop, append_assoc,
  take-append_left,
}

abbrev pub Block {ℓ} : Type ℓ → Type ℓ
Block A = List (Option A)

module _ {ℓ} {A : Type ℓ} where
  -- realloc(p, n): the old contents as far as they fit, and nothing known behind them
  unfoldable pub realloc : Block A → ℕ → Block A
  realloc d n = take n d ++ replicate (n - length d) none

  -- memcpy(p + offset, cells, length), or an assignment for one cell
  unfoldable pub store : Block A → ℕ → Block A → Option (Block A)
  store d offset cells =
      if leb (offset + length cells) (length d)
      then some (take offset d ++ (cells ++ drop (offset + length cells) d))
      else none

  take-append_le : (n : ℕ) (xs ys : List (Option A)) → n ≤ length xs → take n (xs ++ ys) ≡ take n xs
  take-append_le zero xs ys h = refl
  take-append_le (suc n) [] ys h = absurd (omega arith)
  take-append_le (suc n) (x ∷ xs) ys h = ap (◌∷◌ x) (take-append_le n xs ys (omega arith))

  take_prefix : (n : ℕ) (xs ys : List (Option A)) → n ≡ length xs → take n (xs ++ ys) ≡ xs
  take_prefix n xs ys e = rw e (take-append_left xs ys)

  -- *(p + i); an unwritten cell and one past the end hold nothing that may be read.
  unfoldable pub load : Block A → ℕ → Option A
  load d i = elim (get_elem? d i) [ none ↦ none | some cell ↦ cell ]

  pub load-drop :
      (d : Block A) (i : ℕ) (y : A) (ys : Block A) → drop i d ≡ some y ∷ ys → load d i ≡ some y
  unfolding load
  load-drop d i y ys h = rw (get_elem?-drop i d (some y) ys h, load)

  pub length-realloc : (d : Block A) (n : ℕ) → length d ≤ n → length (realloc d n) ≡ n
  unfolding realloc
  length-realloc d n h = rw (take_all n d h) (
      omega (
        arith,
        length-append d (replicate (n - length d) none),
        length-replicate {A = Option A} (n - length d) none,
      ))

  pub take-realloc :
      (k : ℕ) (d : Block A) (n : ℕ) → length d ≤ n → k ≤ length d → take k (realloc d n) ≡ take k d
  unfolding realloc
  take-realloc k d n h g =
      rw (take_all n d h) (take-append_le k d (replicate (n - length d) none) g)

  -- A write inside the block succeeds, keeps the length and what stands before, and is read back.
  pub store_inside :
      (d : Block A) (offset : ℕ) (cells : Block A)
      → offset + length cells ≤ length d
      → (d' : Block A) × (store d offset cells ≡ some d')
        × (length d' ≡ length d)
        × (take (offset + length cells) d' ≡ take offset d ++ cells)
        × (take offset d' ≡ take offset d)
  unfolding store
  store_inside d offset cells h = (
    take offset d ++ (cells ++ drop (offset + length cells) d),
    rw (le→leb _ _ h),
    omega (
      arith,
      length-append (take offset d) (cells ++ drop (offset + length cells) d),
      length-append cells (drop (offset + length cells) d),
      length-take offset d (omega arith),
      length-drop (offset + length cells) d,
    ),
    ap (take (offset + length cells))
          (sym (append_assoc (take offset d) cells (drop (offset + length cells) d)))
        ∙ take_prefix (offset + length cells) (take offset d ++ cells)
            (drop (offset + length cells) d)
            (omega
              (arith, length-append (take offset d) cells, length-take offset d (omega arith))),
    take_prefix offset (take offset d) (cells ++ drop (offset + length cells) d)
        (omega (arith, length-take offset d (omega arith))),
  )
