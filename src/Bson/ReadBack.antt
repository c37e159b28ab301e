-- ===== src/Bson/ReadBack.antt =====
-- The typed readers on a document that was written from elements: each is defined and gives the value
-- of the first element with the name and the type.
use mongo_hhvm_driver.Base.{
  ◌>>=◌, ℕ, ◌+◌, ◌<◌, true, Option, none, some, List, [], ◌∷◌, ◌++◌, ◌==◌, drop, get_elem?, ◌≡◌,
  refl, ap, ◌∙◌, arith,
}
use mongo_hhvm_driver.CLib.{Bytes}
use mongo_hhvm_driver.Bson.Document.{Value, tag, print_value, Element, value_position}
use mongo_hhvm_driver.Bson.Kind.{Kind-of}
use mongo_hhvm_driver.Bson.Values.{
  as_int32, as_int64, as_double, as_bool, as_text, as_sized_text, HasNul,
}
use mongo_hhvm_driver.Bson.Reader.{cstring, read_int32}
use mongo_hhvm_driver.Bson.Fields.{
  find, read_with, read_bytes, read_stringl, find_as_int64, find_as_stringl, find_as_array,
  find_as_document, find_as_double, find_as_bool, find_as_int32, find_as_string,
}
use mongo_hhvm_driver.Bson.Located.{
  field_of, StandsAt, AllValues, Located, value_position-Located, find-print_elements,
}
use mongo_hhvm_driver.Bson.ReadAt.{
  IsSound, int32_at, double_at, bool_at, text_at, long_at, sized_text_at,
}

-- A reader at a place that was searched for
read-Located :
    {A : Type 0} (read : ℕ → Option A) (as_value : Value → Option A) (buf : Bytes) (type : ℕ)
    → ((at : ℕ) (v : Value) (rest : Bytes)
        → IsSound v
        → (tag v == type) ≡ true
        → drop at buf ≡ print_value v ++ rest
        → read_with read (some at) ≡ some (as_value v))
    → {p : Option ℕ} {v : Option Value} → Located buf type IsSound p v
    → read_with read p ≡ some (v >>= as_value)
read-Located read as_value buf type step Located.absent = refl
read-Located read as_value buf type step (Located.present at v rest nul t e) =
    step at v rest nul t e

all-IsSound : (xs : List Element) → AllValues HasNul xs → AllValues IsSound xs
all-IsSound [] nul = tt
all-IsSound (x ∷ xs) nul = ((nul.0, x.short), all-IsSound xs nul.1)

behind_length :
    (p : Option ℕ)
    → read_with (λ value. some (value + 4)) p ≡ some (p >>= λ value. some (value + 4))
behind_length none = refl
behind_length (some value) = refl

-- On a document that was written from elements, whose strings have a NUL, each of the readers of an
-- int32, an int64, a double, a bool, a string, a string with its length, an array and a document is
-- defined, and gives the value of the first element with the name and the reader's type, or nothing if
-- there is none. An int32 is the number in two's complement with the lowest byte first, an int64 and a
-- double are their eight bytes, a string ends at its first NUL, and an array or a document is the place
-- behind its length.
pub readers-print_elements :
    (xs : List Element) (buf rest name : Bytes) (at : ℕ)
    → AllValues HasNul xs
    → StandsAt at buf xs rest
    → (find_as_int32 buf at name ≡ some (field_of xs name 16 >>= as_int32))
      × (find_as_int64 buf at name ≡ some (field_of xs name 18 >>= as_int64))
      × (find_as_double buf at name ≡ some (field_of xs name 1 >>= as_double))
      × (find_as_bool buf at name ≡ some (field_of xs name 8 >>= as_bool))
      × (find_as_string buf at name ≡ some (field_of xs name 2 >>= as_text))
      × (find_as_stringl buf at name ≡ some (field_of xs name 2 >>= as_sized_text))
      × (find_as_array buf at name
          ≡ some (value_position at xs name 4 >>= λ value. some (value + 4)))
      × (find_as_document buf at name
          ≡ some (value_position at xs name 3 >>= λ value. some (value + 4)))
unfolding find_as_int32 find_as_int64 find_as_double find_as_bool find_as_string find_as_stringl
    find_as_array find_as_document
readers-print_elements xs buf rest name at nul e =
    let found : (type : ℕ)
        → type < 128
        → find buf at name type ≡ some (value_position at xs name type) =
      λ type k. find-print_elements xs buf rest name type at k e in
    let located : (type : ℕ)
        → Located buf type IsSound (value_position at xs name type) (field_of xs name type) =
      λ type. value_position-Located IsSound xs buf rest name type at (all-IsSound xs nul) e in
    (
      ap (λ p. p >>= read_with (read_int32 buf)) (found 16 (omega arith))
          ∙ read-Located (read_int32 buf) as_int32 buf 16
              (λ at' v rest' h t e'. int32_at buf at' v rest' (Kind-of v) t e') (located 16),
      ap (λ p. p >>= read_with (read_bytes buf 8)) (found 18 (omega arith))
          ∙ read-Located (read_bytes buf 8) as_int64 buf 18
              (λ at' v rest' h t e'. long_at buf at' v rest' (Kind-of v) t e') (located 18),
      ap (λ p. p >>= read_with (read_bytes buf 8)) (found 1 (omega arith))
          ∙ read-Located (read_bytes buf 8) as_double buf 1
              (λ at' v rest' h t e'. double_at buf at' v rest' (Kind-of v) t e') (located 1),
      ap (λ p. p >>= read_with (get_elem? buf)) (found 8 (omega arith))
          ∙ read-Located (get_elem? buf) as_bool buf 8
              (λ at' v rest' h t e'. bool_at buf at' v rest' (Kind-of v) t e') (located 8),
      ap (λ p. p >>= read_with (λ value. cstring buf (value + 4))) (found 2 (omega arith))
          ∙ read-Located (λ value. cstring buf (value + 4)) as_text buf 2
              (λ at' v rest' h t e'. text_at buf at' v rest' (Kind-of v) h.0 t e') (located 2),
      ap (λ p. p >>= read_with (read_stringl buf)) (found 2 (omega arith))
          ∙ read-Located (read_stringl buf) as_sized_text buf 2
              (λ at' v rest' h t e'. sized_text_at buf at' v rest' (Kind-of v) h t e') (located 2),
      ap (λ p. p >>= read_with (λ value. some (value + 4))) (found 4 (omega arith))
          ∙ behind_length (value_position at xs name 4),
      ap (λ p. p >>= read_with (λ value. some (value + 4))) (found 3 (omega arith))
          ∙ behind_length (value_position at xs name 3),
    )
