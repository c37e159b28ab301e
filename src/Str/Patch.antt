-- ===== src/Str/Patch.antt =====
-- What packets do with a buffer besides appending: bytes that were written are overwritten, and the
-- whole is read.
use mongo_hhvm_driver.Base.{
  ◌>>=◌, ℕ, suc, ◌+◌, ◌*◌, ◌≤◌, ◌<◌, Option, none, some, [], ◌∷◌, ◌++◌, map, ◌≡◌, inl, inr, refl,
  ap, sym, ◌∙◌, arith, length, take, drop, append_assoc, length-append, take-append_left,
  take-append-drop, drop-append_left, le→leb,
}
use mongo_hhvm_driver.CLib.{Bytes}
use mongo_hhvm_driver.Memory.{Block, store}
use mongo_hhvm_driver.Str.{Str, init}
use mongo_hhvm_driver.Str.Append.{Holds, length-map-some, map-some-append}

pub init-Holds : Holds init []
init-Holds = record {
  used = refl;
  allocated = refl;
  front = refl;
  room = omega arith;
  lean = omega arith;
  terminated = inl refl;
}

-- The block of a buffer that was written starts with its bytes and a NUL.
starts_with_bytes :
    (xs : Str) (bytes : Bytes)
    → Holds xs bytes
    → 0 < xs.l
    → (tail : Block ℕ) × (xs.d ≡ map some bytes ++ (some 0 ∷ tail))
starts_with_bytes xs bytes h used = elim h.terminated [
  | inl fresh ↦ absurd (omega (arith, fresh, h.room))
  | inr (room, same) ↦ (
    drop (xs.l + 1) xs.d,
    sym (take-append-drop (xs.l + 1) xs.d)
        ∙ ap (λ cells. cells ++ drop (xs.l + 1) xs.d) (same ∙ map-some-append bytes (0 ∷ []))
        ∙ append_assoc (map some bytes) (some 0 ∷ []) (drop (xs.l + 1) xs.d),
  )
]

take_front : (n : ℕ) (front tail : Block ℕ) → n ≡ length front → take n (front ++ tail) ≡ front
take_front n front tail e = rw e (take-append_left front tail)

-- Conversely, such a block makes a buffer that holds them.
held :
    (xs : Str) (bytes : Bytes) (tail : Block ℕ)
    → xs.l ≡ length bytes
    → length xs.d ≡ xs.a
    → xs.a ≤ 2 * xs.l + 1024
    → xs.d ≡ map some bytes ++ (some 0 ∷ tail)
    → Holds xs bytes
held xs bytes tail used allocated lean e =
    let size : length xs.d ≡ length bytes + suc (length tail) =
      ap length e
      ∙ omega (arith, length-append (map some bytes) (some 0 ∷ tail), length-map-some bytes) in
    record {
      used = used;
      allocated = allocated;
      front =
          ap (take xs.l) e
          ∙ take_front xs.l (map some bytes) (some 0 ∷ tail) (used ∙ sym (length-map-some bytes));
      room = omega arith;
      lean = lean;
      terminated = inr (
        omega arith,
        ap (take (xs.l + 1)) (e ∙ sym (append_assoc (map some bytes) (some 0 ∷ []) tail))
            ∙ take_front (xs.l + 1) (map some bytes ++ (some 0 ∷ [])) tail (
                omega (
                  arith,
                  length-append (map {B = Option ℕ} some bytes) (some 0 ∷ []),
                  length-map-some bytes,
                ))
            ∙ sym (map-some-append bytes (0 ∷ [])),
      );
    }

store_middle :
    (before middle cells behind : Block ℕ)
    → length cells ≡ length middle
    → store (before ++ (middle ++ behind)) (length before) cells
      ≡ some (before ++ (cells ++ behind))
unfolding store
store_middle before middle cells behind same =
    let fits : length before + length cells ≤ length (before ++ (middle ++ behind)) =
      omega (arith, length-append before (middle ++ behind), length-append middle behind) in
    let end : length before + length cells ≡ length (before ++ middle) =
      omega (arith, length-append before middle) in
    let rest : drop (length before + length cells) (before ++ (middle ++ behind)) ≡ behind =
      ap (drop (length before + length cells)) (sym (append_assoc before middle behind))
      ∙ rw end (drop-append_left (before ++ middle) behind) in
    rw (le→leb _ _ fits) (rw (take-append_left before (middle ++ behind)) (rw rest refl))

-- Bytes of a buffer that are overwritten by as many: the others stay, and the buffer is terminated as
-- before.
pub patch-Holds :
    (xs : Str) (before middle behind cells : Bytes)
    → Holds xs (before ++ (middle ++ behind))
    → 0 < length middle
    → length cells ≡ length middle
    → (d : Block ℕ) × (store xs.d (length before) (map some cells) ≡ some d)
      × Holds (record xs { d = d }) (before ++ (cells ++ behind))
patch-Holds xs before middle behind cells h filled same =
    let (tail, e) = starts_with_bytes xs (before ++ (middle ++ behind)) h (
      omega
        (arith, h.used, length-append before (middle ++ behind), length-append middle behind)) in
    let cut : (part : Bytes)
        → map some (before ++ (part ++ behind)) ++ (some 0 ∷ tail)
          ≡ map some before ++ (map some part ++ (map some behind ++ (some 0 ∷ tail))) =
      λ part. simp (map-some-append, append_assoc) in
    let d : Block ℕ = map some before ++ (map some cells ++ (map some behind ++ (some 0 ∷ tail))) in
    let stored : store xs.d (length before) (map some cells) ≡ some d =
      ap (λ block. store block (length before) (map some cells)) (e ∙ cut middle)
      ∙ ap
          (λ n.
            store (map some before ++ (map some middle ++ (map some behind ++ (some 0 ∷ tail)))) n
              (map some cells))
          (sym (length-map-some before))
      ∙ store_middle (map some before) (map some middle) (map some cells)
          (map some behind ++ (some 0 ∷ tail))
          (omega (arith, length-map-some cells, length-map-some middle)) in
    let equal : (part : Bytes)
        → length (
            map {B = Option ℕ} some before
            ++ (map some part ++ (map some behind ++ (some 0 ∷ tail))))
          ≡ length before + length part + length behind + suc (length tail) =
      λ part. omega (
        arith,
        length-append (map {B = Option ℕ} some before)
            (map some part ++ (map some behind ++ (some 0 ∷ tail))),
        length-append (map {B = Option ℕ} some part) (map some behind ++ (some 0 ∷ tail)),
        length-append (map {B = Option ℕ} some behind) (some 0 ∷ tail),
        length-map-some before,
        length-map-some part,
        length-map-some behind,
      ) in
    let whole : length xs.d ≡ length before + length middle + length behind + suc (length tail) =
      ap length (e ∙ cut middle) ∙ equal middle in
    (
      d,
      stored,
      held (record xs { d = d }) (before ++ (cells ++ behind)) tail
          (omega (
            arith,
            h.used,
            length-append before (middle ++ behind),
            length-append middle behind,
            length-append before (cells ++ behind),
            length-append cells behind,
          ))
          (omega (arith, equal cells, h.allocated)) h.lean (sym (cut cells)),
    )

read_cells : Block ℕ → Option Bytes
read_cells [] = some []
read_cells (none ∷ cells) = none
read_cells (some b ∷ cells) = read_cells cells >>= λ bytes. some (b ∷ bytes)

-- The bytes of a packet, which the send callback reads: the first `l` of `d`
unfoldable pub contents : Str → Option Bytes
unfolding read_cells
contents xs = read_cells (take xs.l xs.d)

read_cells-map : (bytes : Bytes) → read_cells (map some bytes) ≡ some bytes
unfolding read_cells
read_cells-map [] = refl
read_cells-map (b ∷ bytes) = rw (read_cells-map bytes) refl

pub contents-Holds : (xs : Str) (bytes : Bytes) → Holds xs bytes → contents xs ≡ some bytes
unfolding contents
contents-Holds xs bytes h = rw h.front (read_cells-map bytes)
