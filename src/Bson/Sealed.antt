-- ===== src/Bson/Sealed.antt =====
-- A whole packet of src/mcon/mini_bson.c: after its fields are added, the lengths are set.
use mongo_hhvm_driver.Base.{
  ℕ, ◌+◌, ◌-◌, ◌<◌, Option, some, [], ◌∷◌, ◌++◌, ◌≡◌, refl, ap, sym, ◌∙◌, subst, arith, length,
  append_assoc, length-append,
}
use mongo_hhvm_driver.Base.Int.{pos}
use mongo_hhvm_driver.CLib.{Bytes}
use mongo_hhvm_driver.Types.{Connection}
use mongo_hhvm_driver.Str.{Str}
use mongo_hhvm_driver.Str.Append.{Holds, str_limit}
use mongo_hhvm_driver.Str.Patch.{patch-Holds}
use mongo_hhvm_driver.Bson.Write.{int_bytes, serialize_int, get_reqid}
use mongo_hhvm_driver.Bson.Packets.{set_int, set_length, create_packet}
use mongo_hhvm_driver.Bson.Written.{Writes, addl-Writes, header_tail, header_Writes}

-- A document of these fields, with its length in front and a NUL behind
abbrev pub print_document : Bytes → Bytes
print_document fields = int_bytes (pos (length fields + 5)) ++ (fields ++ (0 ∷ []))

-- A query with the document, and its length in front
abbrev pub print_query : ℕ → Option Bytes → Bytes → Bytes
print_query reqid ns fields =
    int_bytes (pos (4 + length (header_tail reqid ns ++ print_document fields)))
    ++ (header_tail reqid ns ++ print_document fields)

set_int-Holds :
    (xs : Str) (before middle behind : Bytes) (at num : ℕ)
    → Holds xs (before ++ (middle ++ behind))
    → length middle ≡ 4
    → at ≡ length before
    → (xs' : Str) × (set_int xs at num ≡ some xs')
      × Holds xs' (before ++ (int_bytes (pos num) ++ behind))
unfolding set_int
set_int-Holds xs before middle behind at num h four place =
    let (d, stored, kept) =
      patch-Holds xs before middle behind (int_bytes (pos num)) h (omega arith) (sym four) in
    (record xs { d = d }, rw place (rw stored refl), kept)

set_length-Holds :
    (xs : Str) (tail fields : Bytes) (hdr : ℕ)
    → Holds xs (((int_bytes (pos 0) ++ tail) ++ int_bytes (pos 0)) ++ fields)
    → hdr ≡ 4 + length tail
    → length (print_document fields) + (4 + length tail) < str_limit
    → (xs' : Str) × (set_length hdr xs ≡ some xs')
      × Holds xs' (
          int_bytes (pos (4 + length (tail ++ print_document fields)))
          ++ (tail ++ print_document fields))
unfolding set_length
set_length-Holds xs tail fields hdr h place short =
    let zero_int : Bytes = int_bytes (pos 0) in
    let (ended, e₁, h₁) = addl-Writes (0 ∷ []) xs (((zero_int ++ tail) ++ zero_int) ++ fields) h (
      omega (
        arith,
        length-append (((zero_int ++ tail) ++ zero_int) ++ fields) (0 ∷ []),
        length-append ((zero_int ++ tail) ++ zero_int) fields,
        length-append (zero_int ++ tail) zero_int,
        length-append fields (0 ∷ []),
      )) in
    let regroup : (((zero_int ++ tail) ++ zero_int) ++ fields) ++ (0 ∷ [])
        ≡ (zero_int ++ tail) ++ (zero_int ++ (fields ++ (0 ∷ []))) =
      append_assoc ((zero_int ++ tail) ++ zero_int) fields (0 ∷ [])
      ∙ append_assoc (zero_int ++ tail) zero_int (fields ++ (0 ∷ [])) in
    let h₁' : Holds ended ((zero_int ++ tail) ++ (zero_int ++ (fields ++ (0 ∷ [])))) =
      subst (Holds ended) regroup h₁ in
    let size : ended.l ≡ 4 + length tail + (4 + (length fields + 1)) =
      h₁'.used
      ∙ omega (
        arith,
        length-append tail (zero_int ++ (fields ++ (0 ∷ []))),
        length-append fields (0 ∷ []),
      ) in
    let inner_size : ended.l - hdr ≡ length fields + 5 = omega arith in
    let (inner, e₂, h₂) =
      set_int-Holds ended (zero_int ++ tail) zero_int (fields ++ (0 ∷ [])) hdr (ended.l - hdr) h₁'
        refl (omega arith) in
    let h₂' : Holds inner (zero_int ++ (tail ++ print_document fields)) =
      subst (Holds inner)
        (ap (λ n. zero_int ++ (tail ++ (int_bytes (pos n) ++ (fields ++ (0 ∷ []))))) inner_size)
        h₂ in
    let (outer, e₃, h₃) =
      set_int-Holds inner [] zero_int (tail ++ print_document fields) 0 inner.l h₂' refl refl in
    (
      outer,
      rw e₁ (rw e₂ e₃),
      subst (λ n. Holds outer (int_bytes (pos n) ++ (tail ++ print_document fields)))
          (h₂'.used ∙ omega (arith, length-append zero_int (tail ++ print_document fields))) h₃,
    )

-- Whatever fields the body adds, if the query has fewer than 2 ^ 30 - 512 bytes, the packet is made, and
-- it holds a query with a document of those fields, each with the length that it has.
pub create_packet-Holds :
    (con : Connection) (ns : Option Bytes) (body : Str → Option Str) (fields : Bytes)
    → Writes body fields
    → length (print_query (get_reqid con).last_reqid ns fields) < str_limit
    → (xs : Str) × (create_packet con ns body ≡ some xs)
      × Holds xs (print_query (get_reqid con).last_reqid ns fields)
unfolding create_packet
create_packet-Holds con ns body fields writes short =
    let reqid : ℕ = (get_reqid con).last_reqid in
    let tail : Bytes = header_tail reqid ns in
    let split : length (tail ++ print_document fields)
        ≡ length tail + length (print_document fields) =
      length-append tail (print_document fields) in
    let last : length (fields ++ (0 ∷ [])) ≡ length fields + 1 = length-append fields (0 ∷ []) in
    let front : length ((int_bytes (pos 0) ++ tail) ++ int_bytes (pos 0)) ≡ length tail + 8 =
      length-append (int_bytes (pos 0) ++ tail) (int_bytes (pos 0)) ∙ omega arith in
    let (header, e₀, h₀) = header_Writes reqid ns (omega arith) in
    let (sized, e₁, h₁) =
      addl-Writes (int_bytes (pos 0)) header (int_bytes (pos 0) ++ tail) h₀ (omega arith) in
    let counted : serialize_int header (pos 0) ≡ some sized = unfold serialize_int in e₁ in
    let (filled, e₂, h₂) =
      writes sized ((int_bytes (pos 0) ++ tail) ++ int_bytes (pos 0)) h₁
        (omega (arith, length-append ((int_bytes (pos 0) ++ tail) ++ int_bytes (pos 0)) fields)) in
    let (xs, e₃, h₃) =
      set_length-Holds filled tail fields header.l h₂
        (h₀.used ∙ omega (arith, length-append (int_bytes (pos 0)) tail)) (omega arith) in
    (xs, rw e₀ (rw counted (rw e₂ e₃)), h₃)
