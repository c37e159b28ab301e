-- ===== src/Bson/Located.antt =====
-- Where the search for a field leads in a document that was written from elements: to the bytes of the
-- value of the first element with the name and the type.
use mongo_hhvm_driver.Base.{
  ℕ, ◌+◌, ◌<◌, ◌≤◌, true, Option, none, some, List, [], ◌∷◌, ◌++◌, ◌==◌, length, drop, drop_behind,
  length-drop, length-append, if◌then◌else◌, ◌≡◌, refl, ap, ◌∙◌, arith, Bool-cases, inl, inr,
}
use mongo_hhvm_driver.CLib.{Bytes, str_eq}
use mongo_hhvm_driver.Bson.Document.{
  Value, tag, print_value, Element, print_elements, matches, value_position,
}
use mongo_hhvm_driver.Bson.Walk.{drop_one}
use mongo_hhvm_driver.Bson.Find.{search_result, find_field-print_elements}
use mongo_hhvm_driver.Bson.Fields.{settle, find}

-- The value of the first element with the name and the type
abbrev pub field_of : List Element → Bytes → ℕ → Option Value
field_of [] name type = none
field_of (x ∷ xs) name type =
    let later = field_of xs name type in if matches name type x then some x.value else later

-- The document stands in the buffer at this place.
abbrev pub StandsAt : ℕ → Bytes → List Element → Bytes → Type 0
StandsAt at buf xs rest = drop at buf ≡ print_elements xs rest

-- The values of all elements have the property.
abbrev pub AllValues : (Value → Type 0) → List Element → Type 0
AllValues P [] = Unit
AllValues P (x ∷ xs) = P x.value × AllValues P xs

-- A place in the buffer and the value of the type that stands there
pub data Located (buf : Bytes) (type : ℕ) (P : Value → Type 0)
    : Option ℕ → Option Value → Type 0 where
  absent : Located buf type P none none
  present :
      (at : ℕ) (v : Value) (rest : Bytes)
      → P v
      → (tag v == type) ≡ true
      → drop at buf ≡ print_value v ++ rest
      → Located buf type P (some at) (some v)

typed :
    (name : Bytes) (type : ℕ) (x : Element)
    → matches name type x ≡ true
    → (tag x.value == type) ≡ true
typed name type x h = elim (Bool-cases (str_eq x.name name)) [
  | inl same ↦ rw same at h
  | inr other ↦ let no = rw other at h in cc
]

-- What stands behind an element's type and name, and behind its value
pub StandsAt-value :
    (x : Element) (xs : List Element) (buf rest : Bytes) (at : ℕ)
    → StandsAt at buf (x ∷ xs) rest
    → drop (at + 1 + length x.name + 1) buf ≡ print_value x.value ++ print_elements xs rest
StandsAt-value x xs buf rest at e =
    let more : Bytes = print_value x.value ++ print_elements xs rest in
    let named : drop (at + 1) buf ≡ x.name ++ (0 ∷ more) = drop_one buf at _ _ e in
    drop_one buf (at + 1 + length x.name) 0 more (drop_behind buf x.name (0 ∷ more) (at + 1) named)

pub StandsAt-behind :
    (x : Element) (xs : List Element) (buf rest : Bytes) (at : ℕ)
    → StandsAt at buf (x ∷ xs) rest
    → StandsAt (at + 1 + length x.name + 1 + length (print_value x.value)) buf xs rest
StandsAt-behind x xs buf rest at e =
    drop_behind buf (print_value x.value) (print_elements xs rest) (at + 1 + length x.name + 1)
      (StandsAt-value x xs buf rest at e)

pub value_position-Located :
    (P : Value → Type 0) (xs : List Element) (buf rest name : Bytes) (type at : ℕ)
    → AllValues P xs
    → StandsAt at buf xs rest
    → Located buf type P (value_position at xs name type) (field_of xs name type)
value_position-Located P [] buf rest name type at all e = Located.absent
value_position-Located P (x ∷ xs) buf rest name type at all e =
    let here : ℕ = at + 1 + length x.name + 1 in
    let valued = StandsAt-value x xs buf rest at e in
    let later = StandsAt-behind x xs buf rest at e in
    elim (Bool-cases (matches name type x)) [
      | inl same ↦ rw same (
          Located.present here x.value (print_elements xs rest) all.0 (typed name type x same)
            valued)
      | inr other ↦ rw other (
          value_position-Located P xs buf rest name type (here + length (print_value x.value)) all.1
            later)
    ]

pub length-print_elements :
    (xs : List Element) (rest : Bytes) → length xs ≤ length (print_elements xs rest)
length-print_elements [] rest = omega arith
length-print_elements (x ∷ xs) rest =
    let more : Bytes = print_value x.value ++ print_elements xs rest in
    omega (
      arith,
      length-append x.name (0 ∷ more),
      length-append (print_value x.value) (print_elements xs rest),
      length-print_elements xs rest,
    )

settled : (o : Option ℕ) → settle (search_result o) ≡ some o
settled none = refl
settled (some at) = refl

-- The search is defined on every such document.
pub find-print_elements :
    (xs : List Element) (buf rest name : Bytes) (type at : ℕ)
    → type < 128
    → StandsAt at buf xs rest
    → find buf at name type ≡ some (value_position at xs name type)
unfolding find
find-print_elements xs buf rest name type at k e =
    let long : length xs < length buf + 1 =
      omega (arith, length-drop at buf, ap length e, length-print_elements xs rest) in
    ap settle (find_field-print_elements xs (length buf + 1) buf rest name type at k long e)
    ∙ settled (value_position at xs name type)
