-- ===== src/Bson/Find.antt =====
-- `bson_find_field` on a document that was written from its elements: the loop ends and finds the
-- first field with the name and the type.
use mongo_hhvm_driver.Base.{
  drop_behind, ℕ, zero, suc, ◌+◌, ◌<◌, Bool, true, false, Option, none, some, List, [], ◌∷◌, ◌++◌,
  ◌==◌, ltb, if◌then◌else◌, length, drop, ◌≡◌, ◌≢◌, refl, ap, ◌∙◌, arith, get_elem?-drop,
  Bool-cases, inl, inr,
}
use mongo_hhvm_driver.Base.Int.{pos, eqb_ℤ}
use mongo_hhvm_driver.CLib.{Bytes}
use mongo_hhvm_driver.Bson.Reader.{
  signed_char, Current, get_current, is_wanted, Search, find_field, follow, judge, search_at, next,
}
use mongo_hhvm_driver.Bson.Document.{
  Value, tag, print_value, Element, print_elements, matches, value_position,
}
use mongo_hhvm_driver.Bson.Walk.{cstring_lem, skip_lem, drop_one, tag_pos, next-print_elements}

abbrev pub search_result : Option ℕ → Search
search_result none = Search.missing
search_result (some at) = Search.found at

abbrev pub element_at : ℕ → Element → Current
element_at at x = record {
  type = signed_char (tag x.value);
  field = some x.name;
  value = at + 1 + length x.name + 1;
}

pub get_current-print_elements :
    (buf : Bytes) (at : ℕ) (x : Element) (rest : Bytes)
    → drop at buf ≡ tag x.value ∷ (x.name ++ (0 ∷ rest))
    → get_current buf at ≡ some (element_at at x)
unfolding get_current
get_current-print_elements buf at x rest e =
    let named : drop (at + 1) buf ≡ x.name ++ (0 ∷ rest) = drop_one buf at _ _ e in
    let apart : tag x.value ≢ 0 = λ z. let no = tag_pos x.value in ground arith in
    let whole : at + suc (length x.name) + 1 ≡ at + 1 + length x.name + 1 = omega arith in
    rw (get_elem?-drop at buf _ _ e) (
      rw (tag_pos x.value) (
        rw (cstring_lem buf x.name rest (at + 1) x.name_nul named)
          (rw (skip_lem buf (tag x.value ∷ x.name) rest at (apart, x.name_nul) e) (rw whole refl))))

pub signed_char_lem :
    (t type : ℕ) → t < 256 → type < 128 → eqb_ℤ (signed_char t) (pos type) ≡ (t == type)
signed_char_lem t type h k = elim (Bool-cases (ltb t 128)) [
  | inl small ↦ rw small refl
  | inr big ↦ rw big (let other : (t == type) ≡ false = ground arith in rw other refl)
]

tag_byte : (v : Value) → tag v < 256
tag_byte (Value.double v k) = omega arith
tag_byte (Value.datetime v k) = omega arith
tag_byte (Value.timestamp v k) = omega arith
tag_byte (Value.int64 v k) = omega arith
tag_byte (Value.int32 v k) = omega arith
tag_byte (Value.object_id v k) = omega arith
tag_byte (Value.boolean b) = omega arith
tag_byte Value.undefined = omega arith
tag_byte Value.null = omega arith
tag_byte Value.min_key = omega arith
tag_byte Value.max_key = omega arith
tag_byte (Value.string s) = omega arith
tag_byte (Value.javascript s) = omega arith
tag_byte (Value.symbol s) = omega arith
tag_byte (Value.document b) = omega arith
tag_byte (Value.array b) = omega arith
tag_byte (Value.binary k b) = omega arith
tag_byte (Value.db_pointer s id k) = omega arith

is_wanted-matches :
    (at : ℕ) (x : Element) (name : Bytes) (type : ℕ)
    → type < 128
    → is_wanted (element_at at x) name (pos type) ≡ some (matches name type x)
unfolding is_wanted
is_wanted-matches at x name type k =
    rw (signed_char_lem (tag x.value) type (tag_byte x.value) k) refl

pub ending :
    (buf : Bytes) (at : ℕ) (rest : Bytes)
    → drop at buf ≡ 0 ∷ rest
    → get_current buf at ≡ some (record { type = pos 0; field = none; value = 0 })
unfolding get_current
ending buf at rest e = rw (get_elem?-drop at buf 0 rest e) refl

-- The document ends: the search for a field that no element has comes to NULL.
find_field_end :
    (fuel : ℕ) (buf rest name : Bytes) (type at : ℕ)
    → drop at buf ≡ 0 ∷ rest
    → find_field (suc fuel) buf name (pos type) at ≡ Search.missing
unfolding find_field is_wanted
find_field_end fuel buf rest name type at e =
    ap
      (search_at name (pos type)
        (follow (λ later. find_field fuel buf name (pos type) later) (next buf at)))
      (ending buf at rest e)

judged :
    (value : ℕ) (later : Search) (b : Bool)
    → judge value later (some b) ≡ (if b then Search.found value else later)
judged value later true = refl
judged value later false = refl

-- One turn of the loop.
find_field_step :
    (fuel : ℕ) (buf rest name : Bytes) (type at : ℕ) (x : Element)
    → type < 128
    → drop at buf ≡ tag x.value ∷ (x.name ++ (0 ∷ (print_value x.value ++ rest)))
    → find_field (suc fuel) buf name (pos type) at ≡ (
        if matches name type x
        then Search.found (at + 1 + length x.name + 1)
        else find_field fuel buf name
            (pos type)
            (at + 1 + length x.name + 1 + length (print_value x.value)))
unfolding find_field
find_field_step fuel buf rest name type at x k e =
    let here : ℕ = at + 1 + length x.name + 1 in
    let loop : ℕ → Search = λ later. find_field fuel buf name (pos type) later in
    ap (search_at name (pos type) (follow loop (next buf at)))
      (get_current-print_elements buf at x (print_value x.value ++ rest) e)
    ∙ (ap (judge here (follow loop (next buf at))) (is_wanted-matches at x name type k)
        ∙ (ap (λ n. judge here (follow loop n) (some (matches name type x)))
              (next-print_elements buf at x rest e)
            ∙ judged here (loop (here + length (print_value x.value))) (matches name type x)))

-- On a document that is written from elements of any types but regular expressions and code with a
-- scope, the search for a type below 128 ends within one turn for each element and one more, and finds
-- the first element with the name and the type, or NULL if there is none. The smallest key, of type
-- 255, is not below 128.
pub find_field-print_elements :
    (xs : List Element) (fuel : ℕ) (buf rest name : Bytes) (type at : ℕ)
    → type < 128
    → length xs < fuel
    → drop at buf ≡ print_elements xs rest
    → find_field fuel buf name (pos type) at ≡ search_result (value_position at xs name type)
find_field-print_elements xs zero buf rest name type at k f e = absurd (omega arith)
find_field-print_elements [] (suc fuel) buf rest name type at k f e =
    find_field_end fuel buf rest name type at e
find_field-print_elements (x ∷ xs) (suc fuel) buf rest name type at k f e =
    let here : ℕ = at + 1 + length x.name + 1 in
    let named : drop (at + 1) buf
        ≡ x.name ++ (0 ∷ (print_value x.value ++ print_elements xs rest)) =
      drop_one buf at _ _ e in
    let valued : drop here buf ≡ print_value x.value ++ print_elements xs rest =
      drop_one buf (at + 1 + length x.name) 0 (print_value x.value ++ print_elements xs rest) (
        drop_behind buf x.name (0 ∷ (print_value x.value ++ print_elements xs rest)) (at + 1)
          named) in
    let later : drop (here + length (print_value x.value)) buf ≡ print_elements xs rest =
      drop_behind buf (print_value x.value) (print_elements xs rest) here valued in
    find_field_step fuel buf (print_elements xs rest) name type at x k e
    ∙ elim (Bool-cases (matches name type x)) [
      | inl same ↦ rw same refl
      | inr other ↦ rw other (
          find_field-print_elements xs fuel buf rest name type (here + length (print_value x.value))
            k (omega arith) later)
    ]
