-- ===== src/Bson/Strings.antt =====
-- Steps through an array or a document whose elements are strings.
use mongo_hhvm_driver.Base.{
  ℕ, ◌+◌, true, Option, none, some, List, [], ◌∷◌, ◌++◌, length, drop, get_elem?-drop, is_some, ◌≡◌,
  refl, ◌∙◌,
}
use mongo_hhvm_driver.CLib.{Bytes}
use mongo_hhvm_driver.Bson.Document.{Value, tag, print_value, Element, print_elements}
use mongo_hhvm_driver.Bson.Walk.{next-print_elements}
use mongo_hhvm_driver.Bson.Reader.{Next, cstring, next}
use mongo_hhvm_driver.Bson.Find.{get_current-print_elements, ending}
use mongo_hhvm_driver.Bson.Fields.{array_find_next_string}
use mongo_hhvm_driver.Bson.Located.{StandsAt, StandsAt-value}
use mongo_hhvm_driver.Bson.ReadAt.{text_here}

abbrev or_empty : Option Bytes → Bytes
or_empty none = []
or_empty (some s) = s

-- The C string of a string
abbrev pub text_of : Value → Bytes
text_of (Value.string s) = or_empty (cstring s 0)
text_of _ = []

-- The value is a string with a NUL.
pub data IsText : Value → Type 0 where
  a_text : (s : Bytes) → is_some (cstring s 0) ≡ true → IsText (Value.string s)

abbrev pub behind : ℕ → Element → ℕ
behind at x = at + 1 + length x.name + 1 + length (print_value x.value)

there : (o : Option Bytes) → is_some o ≡ true → o ≡ some (or_empty o)
there none h = cc
there (some s) h = refl

text_value :
    (buf : Bytes) (at : ℕ) {v : Value} (rest : Bytes)
    → IsText v
    → drop at buf ≡ print_value v ++ rest
    → (cstring buf (at + 4) ≡ some (text_of v)) × (tag v ≡ 2)
text_value buf at rest (IsText.a_text s h) e =
    (text_here buf s rest at (length s) h e ∙ there (cstring s 0) h, refl)

next_end : (buf rest : Bytes) (at : ℕ) → drop at buf ≡ 0 ∷ rest → next buf at ≡ some Next.null
unfolding next
next_end buf rest at e = rw (get_elem?-drop at buf 0 rest e) refl

-- A step at the end of the array
pub array_find_next_string-end :
    (buf rest : Bytes) (at : ℕ)
    → StandsAt at buf [] rest
    → array_find_next_string buf at ≡ some (record { item = none; next_at = none })
unfolding array_find_next_string
array_find_next_string-end buf rest at e =
    rw (ending buf at rest e) (rw (next_end buf rest at e) refl)

-- A step at a string
pub array_find_next_string-step :
    (x : Element) (xs : List Element) (buf rest : Bytes) (at : ℕ)
    → IsText x.value
    → StandsAt at buf (x ∷ xs) rest
    → array_find_next_string buf at
      ≡ some (record { item = some (x.name, text_of x.value); next_at = some (behind at x) })
unfolding array_find_next_string
array_find_next_string-step x xs buf rest at t e =
    let more : Bytes = print_value x.value ++ print_elements xs rest in
    let (text, type) =
      text_value buf (at + 1 + length x.name + 1) (print_elements xs rest) t
        (StandsAt-value x xs buf rest at e) in
    rw (get_current-print_elements buf at x more e)
      (rw type (rw text (rw (next-print_elements buf at x (print_elements xs rest) e) refl)))
