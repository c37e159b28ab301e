-- ===== src/Str/Append.antt =====
-- `addl` appends: the buffer then holds the bytes of both with one NUL.
use mongo_hhvm_driver.Base.{
  ℕ, suc, ◌+◌, ◌≤◌, ◌<◌, Option, some, [], ◌∷◌, ◌++◌, map, ◌≡◌, ◌⊎◌, inl, inr, refl, ap, sym, ◌∙◌,
  arith, leb, leb→le, false, ◌*◌, ◌==◌, length, length-append, take, Bool-cases,
}
use mongo_hhvm_driver.CLib.{Bytes}
use mongo_hhvm_driver.Memory.{Block, length-realloc, take-realloc, store_inside}
use mongo_hhvm_driver.Str.{Str, int_limit, grow, terminate, addl}

-- The buffer holds these bytes; once it was written it is terminated inside its block.
pub record Holds (xs : Str) (bytes : Bytes) : Type 0 where
  pub used : xs.l ≡ length bytes
  pub allocated : length xs.d ≡ xs.a
  pub front : take xs.l xs.d ≡ map some bytes
  pub room : xs.l ≤ xs.a
  -- never more than twice what is used, and a first reserve
  pub lean : xs.a ≤ 2 * xs.l + 1024
  pub terminated :
      (xs.a ≡ 0) ⊎ ((xs.l < xs.a) × (take (xs.l + 1) xs.d ≡ map some (bytes ++ (0 ∷ []))))

pub length-map-some : (bytes : Bytes) → length (map {B = Option ℕ} some bytes) ≡ length bytes
length-map-some [] = refl
length-map-some (b ∷ bytes) = ap suc (length-map-some bytes)

-- The buffer after `grow` has room for the new bytes and the NUL.
record HasRoom (xs : Str) (bytes : Bytes) (le : ℕ) : Type 0 where
  used : xs.l ≡ length bytes
  allocated : length xs.d ≡ xs.a
  front : take xs.l xs.d ≡ map some bytes
  room : xs.l + le < xs.a
  lean : xs.a ≤ 2 * (xs.l + le) + 1024

-- Up to this length of what is held no sum overflows.
abbrev pub str_limit : ℕ
str_limit = 1073741312

grow-HasRoom :
    (xs : Str) (bytes : Bytes) (le : ℕ)
    → Holds xs bytes
    → length bytes + le < str_limit
    → (g : Str) × (grow xs le ≡ some g) × (g.l ≡ xs.l) × HasRoom g bytes le
unfolding grow
grow-HasRoom xs bytes le h short =
    let fits : leb int_limit (xs.l + le) ≡ false = ground (arith, h.used) in
    rw fits (elim (Bool-cases (leb xs.a (xs.l + le))) [
      | inl small ↦
          let below : xs.a ≤ xs.l + le = leb→le _ _ small in
          let size_fits : leb int_limit (xs.a + le + 1024) ≡ false = ground (arith, h.used) in
          rw small (
            rw size_fits (
              _,
              refl,
              refl,
              record {
                used = h.used;
                allocated = length-realloc xs.d _ (omega (arith, h.allocated));
                front =
                    take-realloc xs.l xs.d _ (omega (arith, h.allocated))
                      (omega (arith, h.allocated, h.room))
                    ∙ h.front;
                room = omega arith;
                lean = omega arith;
              },
            ))
      | inr large ↦ rw large (
        xs,
        refl,
        refl,
        record {
          used = h.used;
          allocated = h.allocated;
          front = h.front;
          room = ground arith;
          lean = omega (arith, h.lean);
        },
      )
    ])

pub map-some-append :
    (xs ys : Bytes) → map {B = Option ℕ} some (xs ++ ys) ≡ map some xs ++ map some ys
map-some-append [] ys = refl
map-some-append (x ∷ xs) ys = ap (◌∷◌ (some x)) (map-some-append xs ys)

-- The first NUL goes in front of everything, so it changes nothing that is held.
terminate-HasRoom :
    (xs : Str) (bytes : Bytes) (le : ℕ)
    → HasRoom xs bytes le
    → (d : Block ℕ) × (terminate xs ≡ some d) × (length d ≡ xs.a) × (take xs.l d ≡ map some bytes)
unfolding terminate
terminate-HasRoom xs bytes le h = elim (Bool-cases (xs.l == 0)) [
  | inl empty ↦
      let zero_l : xs.l ≡ 0 = ground arith in
      let (d, written, same, _, _) =
        store_inside xs.d 0 (some 0 ∷ []) (omega (arith, h.allocated, h.room)) in
      (
        d,
        rw empty written,
        same ∙ h.allocated,
        ap (λ k. take k d) zero_l ∙ ap (λ k. take k xs.d) (sym zero_l) ∙ h.front,
      )
  | inr full ↦ (xs.d, rw full, h.allocated, h.front)
]

-- Where what the buffer holds then has fewer than 2 ^ 30 - 512 bytes, appending succeeds and neither
-- overflows an `int` nor writes outside the buffer: afterwards the buffer holds the old bytes followed
-- by the new ones, terminated by a NUL inside the block.
pub addl-Holds :
    (xs : Str) (bytes str : Bytes)
    → Holds xs bytes
    → length (bytes ++ str) < str_limit
    → (xs' : Str) × (addl xs str ≡ some xs') × Holds xs' (bytes ++ str) × (xs'.l < xs'.a)
unfolding addl
addl-Holds xs bytes str h short =
    let (grown, eg, _, g) =
      grow-HasRoom xs bytes (length str) h (omega (arith, length-append bytes str)) in
    let (d₀, e₀, len₀, front₀) = terminate-HasRoom grown bytes (length str) g in
    let len : ℕ = grown.l in
    let (d₁, e₁, len₁, front₁, _) =
      store_inside d₀ len (map some str) (omega (arith, g.room, len₀, length-map-some str)) in
    let (d₂, e₂, len₂, front₂, front₃) =
      store_inside d₁ (len + length str) (some 0 ∷ []) (omega (arith, g.room, len₀, len₁)) in
    let body : take (len + length str) d₁ ≡ map some (bytes ++ str) =
      ap (λ k. take (len + k) d₁) (sym (length-map-some str))
      ∙ front₁
      ∙ ap (λ cells. cells ++ map some str) front₀
      ∙ sym (map-some-append bytes str) in
    (
      record { l = len + length str; a = grown.a; d = d₂ },
      rw eg (rw e₀ (rw e₁ (rw e₂))),
      record {
        used = omega (arith, g.used, length-append bytes str);
        allocated = omega (arith, len₀, len₁, len₂);
        front = front₃ ∙ body;
        room = omega (arith, g.room);
        lean = g.lean;
        terminated = inr (
          g.room,
          front₂
              ∙ ap (λ cells. cells ++ (some 0 ∷ [])) body
              ∙ sym (map-some-append (bytes ++ str) (0 ∷ [])),
        );
      },
      g.room,
    )
