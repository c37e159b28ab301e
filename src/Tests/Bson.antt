-- ===== src/Tests/Bson.antt =====
-- A document of two elements, {a: 1, b: "x"}, and a regular expression.
use mongo_hhvm_driver.Base.{◌+◌, some, List, [], ◌∷◌, ◌++◌, drop, ◌≡◌, refl, arith}
use mongo_hhvm_driver.Base.Int.{pos}
use mongo_hhvm_driver.CLib.{Bytes, codes, str_eq}
use mongo_hhvm_driver.Bson.Reader.{Next, next, find_field}
use mongo_hhvm_driver.Bson.Document.{Value, Element, print_elements, value_position}
use mongo_hhvm_driver.Bson.Find.{search_result, find_field-print_elements}
use mongo_hhvm_driver.Bson.Regexp.{next_regexp}

abbrev number : Element
number = record {
  name = codes "a";
  value = Value.int32 (1 ∷ 0 ∷ 0 ∷ 0 ∷ []) refl;
  name_nul = omega arith;
  short = omega arith;
}

abbrev text : Element
text = record {
  name = codes "b";
  value = Value.string (b'x' ∷ 0 ∷ []);
  name_nul = omega arith;
  short = omega arith;
}

abbrev elements : List Element
elements = number ∷ text ∷ []

-- The value of b stands at index 10.
find_b : value_position 0 elements (codes "b") 2 ≡ some 10
unfolding str_eq
find_b = refl

find_field-print_elements_example :
    find_field 3 (print_elements elements []) (codes "b") (pos 2) 0
    ≡ search_result (value_position 0 elements (codes "b") 2)
find_field-print_elements_example =
    find_field-print_elements elements 3 (print_elements elements []) [] (codes "b") 2 0
      (omega arith) (omega arith) refl

abbrev pattern_element : Bytes
pattern_element = 11 ∷ (codes "r" ++ (0 ∷ (codes "^a" ++ (0 ∷ (codes "i" ++ (0 ∷ 0 ∷ []))))))

next_regexp_example :
    (next pattern_element 0 ≡ some (Next.to (0 + 1 + 1 + 1 + 2 + 1)))
    × (drop (0 + 1 + 1 + 1 + 2 + 1) pattern_element ≡ codes "i" ++ (0 ∷ 0 ∷ []))
next_regexp_example =
    next_regexp pattern_element (codes "r") (codes "^a") (codes "i") (0 ∷ []) 0 (omega arith)
      (omega arith) refl
