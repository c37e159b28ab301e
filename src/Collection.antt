-- ===== src/Collection.antt =====
-- The growing array of src/mcon/collection.c, which candidate servers are gathered in. Every caller
-- stores pointers and passes their size, so a cell of the block is one element.
pub mod Laws
pub mod Gather
use mongo_hhvm_driver.Base.{
  ◌>>=◌, ℕ, zero, suc, ◌+◌, ◌*◌, Bool, Option, some, [], ◌∷◌, List, ◌==◌, leb, none, if◌then◌else◌,
  replicate,
}
use mongo_hhvm_driver.Str.{int_limit}
use mongo_hhvm_driver.Memory.{Block, realloc, store, load}

-- mcon_collection
pub record Collection {ℓ} (A : Type ℓ) : Type ℓ where
  pub count : ℕ
  pub space : ℕ
  pub items : Block A

-- The `data_size` of every collection, which is the size of a pointer
abbrev pub pointer_size : ℕ
pointer_size = 8

module _ {ℓ} {A : Type ℓ} where
  -- mcon_init_collection
  unfoldable pub init_collection : Collection A
  init_collection = record { count = 0; space = 16; items = replicate 16 none }

  -- the `realloc` of `mcon_collection_add`: `space * 2` and `space * data_size` on `int`s. A
  -- product that does not fit in an `int` is undefined.
  unfoldable pub grow : Collection A → Option (Collection A)
  grow c =
      let space = c.space * 2 in
      if c.count == c.space
      then if leb int_limit (pointer_size * space)
        then none
        else some (record c { space = space; items = realloc c.items space })
      else some c

  -- mcon_collection_add; `none` is a write outside the block, or an overflow.
  unfoldable pub add : Collection A → A → Option (Collection A)
  add c x = do
    grown ← grow c
    items ← store grown.items grown.count (some x ∷ [])
    some (record grown { items = items; count = grown.count + 1 })

module _ {ℓ κ} {A : Type ℓ} {M : Type κ} (cb : M → A → M) where
  -- the loop of `mcon_collection_iterate` from index `i` on, with `left` rounds to go; the callback
  -- acts on the state `M`
  unfoldable pub iterate_from : Block A → ℕ → ℕ → M → Option M
  iterate_from items i zero m = some m
  iterate_from items i (suc left) m = do x ← load items i; iterate_from items (suc i) left (cb m x)

  -- mcon_collection_iterate
  unfoldable pub iterate : Collection A → M → Option M
  iterate c m = iterate_from c.items 0 c.count m
