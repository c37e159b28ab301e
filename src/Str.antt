-- ===== src/Str.antt =====
-- The growing string of src/mcon/str.c, which packets, messages and tag sets are built in.
pub mod Append
pub mod Patch
pub mod Number
use mongo_hhvm_driver.Base.{
  ◌>>=◌, ℕ, ◌+◌, Option, none, some, [], ◌∷◌, map, leb, ◌==◌, if◌then◌else◌, length, take,
}
use mongo_hhvm_driver.Base.Int.{ℤ}
use mongo_hhvm_driver.CLib.{Bytes, print_int}
use mongo_hhvm_driver.Memory.{Block, realloc, store}

-- mcon_str: used length, allocated length, buffer
pub record Str : Type 0 where
  pub l : ℕ
  pub a : ℕ
  pub d : Block ℕ

abbrev pub prealloc : ℕ
prealloc = 1024

-- mcon_str_ptr_init
abbrev pub init : Str
init = record { l = 0; a = 0; d = [] }

-- 2 ^ 31: an `int` is below
abbrev pub int_limit : ℕ
int_limit = 2147483648

-- `l + le > a - 1` on `int`s, where `a` may be 0: the reallocated buffer if so. A sum that does not
-- fit in an `int` is undefined.
unfoldable pub grow : Str → ℕ → Option Str
grow xs le =
    let size = xs.a + le + prealloc in
    if leb int_limit (xs.l + le)
    then none
    else if leb xs.a (xs.l + le)
    then if leb int_limit size then none else some (record xs { a = size; d = realloc xs.d size })
    else some xs

-- `if (!xs->l) xs->d[0] = '\0'`
unfoldable pub terminate : Str → Option (Block ℕ)
terminate xs = if xs.l == 0 then store xs.d 0 (some 0 ∷ []) else some xs.d

-- mcon_str_addl(xs, str, le, f) of the `le` bytes at `str`; freeing `str` is not modelled. `none`
-- is a write outside the buffer, or a length that does not fit in an `int`.
unfoldable pub addl : Str → Bytes → Option Str
addl xs str = do
  let le = length str
  grown ← grow xs le
  d₀ ← terminate grown
  d₁ ← store d₀ grown.l (map some str)
  d₂ ← store d₁ (grown.l + le) (some 0 ∷ [])
  some (record { l = grown.l + le; a = grown.a; d = d₂ })

-- mcon_str_add
unfoldable pub add : Str → Bytes → Option Str
add xs str = addl xs str

-- mcon_str_add_int: `snprintf` into ten bytes, the NUL included
unfoldable pub add_int : Str → ℤ → Option Str
add_int xs i = add xs (take 9 (print_int i))
