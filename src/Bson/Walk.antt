-- ===== src/Bson/Walk.antt =====
-- One step of the walk: `bson_next` leads behind the element, whatever its type.
use mongo_hhvm_driver.Base.{
  drop_behind, ℕ, suc, ◌+◌, ◌*◌, ◌/◌, ◌%◌, ◌^◌, ◌<◌, ◌≤◌, true, false, none, some, ◌∷◌, ◌++◌, ◌==◌,
  ltb, length, drop, ◌≡◌, refl, ap, ◌∙◌, arith, get_elem?-drop, drop-suc, length-append,
}
use mongo_hhvm_driver.Base.Int.{pos}
use mongo_hhvm_driver.CLib.{Bytes, Lacks, split_at-append}
use mongo_hhvm_driver.Bson.Reader.{
  Next, cstring, skip_field_name, read_int32, fixed_size, length_extra, next_value, next,
}
use mongo_hhvm_driver.Bson.Document.{Value, tag, print_int32, print_value, Element}

pub cstring_lem :
    (buf name rest : Bytes) (at : ℕ)
    → Lacks 0 name
    → drop at buf ≡ name ++ (0 ∷ rest)
    → cstring buf at ≡ some name
cstring_lem buf name rest at h e = rw (e, split_at-append 0 name rest h) refl

pub skip_lem :
    (buf name rest : Bytes) (at : ℕ)
    → Lacks 0 name
    → drop at buf ≡ name ++ (0 ∷ rest)
    → skip_field_name buf at ≡ some (at + length name + 1)
unfolding skip_field_name
skip_lem buf name rest at h e = rw (cstring_lem buf name rest at h e) refl

pub drop_one : (buf : Bytes) (at c : ℕ) (cs : Bytes) → drop at buf ≡ c ∷ cs → drop (at + 1) buf ≡ cs
drop_one buf at c cs e =
    let same : at + 1 ≡ suc at = omega arith in rw same (drop-suc at buf c cs e)

bytes_sum :
    (n : ℕ)
    → n < 2 ^ 31
    → n % 256 + n / 256 % 256 * 2 ^ 8 + n / 65536 % 256 * 2 ^ 16 + n / 16777216 % 256 * 2 ^ 24 ≡ n
bytes_sum n h = omega arith

read_int32-print_int32 :
    (buf rest : Bytes) (at n : ℕ)
    → n < 2 ^ 31
    → drop at buf ≡ print_int32 n ++ rest
    → read_int32 buf at ≡ some (pos n)
unfolding read_int32
read_int32-print_int32 buf rest at n h e =
    let e₁ = drop_one buf at _ _ e in
    let e₂ = drop_one buf (at + 1) _ _ e₁ in
    let e₃ = drop_one buf (at + 1 + 1) _ _ e₂ in
    let small : ltb n (2 ^ 31) ≡ true = ground arith in
    let two : at + 1 + 1 ≡ at + 2 = omega arith in
    let three : at + 1 + 1 + 1 ≡ at + 3 = omega arith in
    rw (get_elem?-drop at buf _ _ e, get_elem?-drop (at + 1) buf _ _ e₁)
      (rw
        (
          rw two at (get_elem?-drop (at + 1 + 1) buf _ _ e₂),
          rw three at (get_elem?-drop (at + 1 + 1 + 1) buf _ _ e₃),
        )
        (rw (bytes_sum n h) (rw small refl)))

-- A value that starts with its length.
counted :
    (buf rest : Bytes) (type at n extra : ℕ)
    → n < 2 ^ 31
    → drop at buf ≡ print_int32 n ++ rest
    → next_value buf type at none (some extra) ≡ some (Next.to (at + extra + n))
counted buf rest type at n extra h e = rw (read_int32-print_int32 buf rest at n h e) refl

length_le : (u v : Bytes) → length u ≤ length (u ++ v)
length_le u v = omega (arith, length-append u v)

next_value-print_value :
    (v : Value) (buf rest : Bytes) (at : ℕ)
    → length (print_value v) < 2 ^ 31
    → drop at buf ≡ print_value v ++ rest
    → next_value buf (tag v) at (fixed_size (tag v)) (length_extra (tag v))
      ≡ some (Next.to (at + length (print_value v)))
unfolding fixed_size length_extra
next_value-print_value (Value.double v k) buf rest at h e = rw k refl
next_value-print_value (Value.datetime v k) buf rest at h e = rw k refl
next_value-print_value (Value.timestamp v k) buf rest at h e = rw k refl
next_value-print_value (Value.int64 v k) buf rest at h e = rw k refl
next_value-print_value (Value.int32 v k) buf rest at h e = rw k refl
next_value-print_value (Value.object_id v k) buf rest at h e = rw k refl
next_value-print_value (Value.boolean b) buf rest at h e = refl
next_value-print_value Value.undefined buf rest at h e = refl
next_value-print_value Value.null buf rest at h e = refl
next_value-print_value Value.min_key buf rest at h e = refl
next_value-print_value Value.max_key buf rest at h e = refl
next_value-print_value (Value.string s) buf rest at h e =
    counted buf (s ++ rest) 2 at (length s) 4 (omega arith) e
    ∙ ap (λ k. some (Next.to k)) (omega arith)
next_value-print_value (Value.javascript s) buf rest at h e =
    counted buf (s ++ rest) 13 at (length s) 4 (omega arith) e
    ∙ ap (λ k. some (Next.to k)) (omega arith)
next_value-print_value (Value.symbol s) buf rest at h e =
    counted buf (s ++ rest) 14 at (length s) 4 (omega arith) e
    ∙ ap (λ k. some (Next.to k)) (omega arith)
next_value-print_value (Value.document b) buf rest at h e =
    counted buf (b ++ rest) 3 at (4 + length b) 0 (omega arith) e
    ∙ ap (λ k. some (Next.to k)) (omega arith)
next_value-print_value (Value.array b) buf rest at h e =
    counted buf (b ++ rest) 4 at (4 + length b) 0 (omega arith) e
    ∙ ap (λ k. some (Next.to k)) (omega arith)
next_value-print_value (Value.binary k b) buf rest at h e =
    counted buf ((k ∷ b) ++ rest) 5 at (length b) 5 (omega arith) e
    ∙ ap (λ k. some (Next.to k)) (omega arith)
next_value-print_value (Value.db_pointer s id k) buf rest at h e =
    counted buf ((s ++ id) ++ rest) 12 at (length s) 16 (omega (arith, length-append s id)) e
    ∙ ap (λ k. some (Next.to k)) (omega (arith, length-append s id))

pub tag_pos : (v : Value) → (tag v == 0) ≡ false
tag_pos (Value.double v k) = refl
tag_pos (Value.datetime v k) = refl
tag_pos (Value.timestamp v k) = refl
tag_pos (Value.int64 v k) = refl
tag_pos (Value.int32 v k) = refl
tag_pos (Value.object_id v k) = refl
tag_pos (Value.boolean b) = refl
tag_pos Value.undefined = refl
tag_pos Value.null = refl
tag_pos Value.min_key = refl
tag_pos Value.max_key = refl
tag_pos (Value.string s) = refl
tag_pos (Value.javascript s) = refl
tag_pos (Value.symbol s) = refl
tag_pos (Value.document b) = refl
tag_pos (Value.array b) = refl
tag_pos (Value.binary k b) = refl
tag_pos (Value.db_pointer s id k) = refl

-- `bson_next` leads from an element, whatever its type, to what is written behind it.
pub next-print_elements :
    (buf : Bytes) (at : ℕ) (x : Element) (rest : Bytes)
    → drop at buf ≡ tag x.value ∷ (x.name ++ (0 ∷ (print_value x.value ++ rest)))
    → next buf at ≡ some (Next.to (at + 1 + length x.name + 1 + length (print_value x.value)))
unfolding next
next-print_elements buf at x rest e =
    let named : drop (at + 1) buf ≡ x.name ++ (0 ∷ (print_value x.value ++ rest)) =
      drop_one buf at _ _ e in
    let valued : drop (at + 1 + length x.name + 1) buf ≡ print_value x.value ++ rest =
      drop_one buf (at + 1 + length x.name) 0 (print_value x.value ++ rest)
        (drop_behind buf x.name (0 ∷ (print_value x.value ++ rest)) (at + 1) named) in
    rw (get_elem?-drop at buf _ _ e) (
      rw (tag_pos x.value) (
        rw (skip_lem buf x.name (print_value x.value ++ rest) (at + 1) x.name_nul named)
          (next_value-print_value x.value buf rest (at + 1 + length x.name + 1) x.short valued)))
