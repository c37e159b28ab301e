-- ===== src/Bson/Document.antt =====
-- Documents as they are written: elements with a type, a name and a value, and a NUL at the end.
use mongo_hhvm_driver.Base.{
  ℕ, ◌+◌, ◌/◌, ◌%◌, ◌^◌, ◌<◌, Bool, ◌&&◌, Option, none, some, List, [], ◌∷◌, ◌++◌, ◌==◌,
  if◌then◌else◌, length, ◌≡◌,
}
use mongo_hhvm_driver.CLib.{Bytes, str_eq, Lacks}

-- The values of BSON, less regular expressions and code with a scope. A value of a fixed size is its
-- bytes; a string is the bytes behind its length, the NUL included.
pub data Value : Type 0 where
  double datetime timestamp int64 : (v : Bytes) → length v ≡ 8 → Value
  int32 : (v : Bytes) → length v ≡ 4 → Value
  object_id : (v : Bytes) → length v ≡ 12 → Value
  boolean : ℕ → Value
  undefined null min_key max_key : Value
  string javascript symbol : Bytes → Value
  document array : Bytes → Value
  binary : ℕ → Bytes → Value
  db_pointer : Bytes → (id : Bytes) → length id ≡ 12 → Value

abbrev pub tag : Value → ℕ
tag (Value.double v h) = 1
tag (Value.string s) = 2
tag (Value.document b) = 3
tag (Value.array b) = 4
tag (Value.binary k b) = 5
tag Value.undefined = 6
tag (Value.object_id v h) = 7
tag (Value.boolean b) = 8
tag (Value.datetime v h) = 9
tag Value.null = 10
tag (Value.db_pointer s id h) = 12
tag (Value.javascript s) = 13
tag (Value.symbol s) = 14
tag (Value.int32 v h) = 16
tag (Value.timestamp v h) = 17
tag (Value.int64 v h) = 18
tag Value.min_key = 255
tag Value.max_key = 127

-- An `int` that is not negative, in four bytes.
abbrev pub print_int32 : ℕ → Bytes
print_int32 n = n % 256 ∷ n / 256 % 256 ∷ n / 65536 % 256 ∷ n / 16777216 % 256 ∷ []

-- A document's length counts itself.
abbrev pub print_value : Value → Bytes
print_value (Value.double v h) = v
print_value (Value.datetime v h) = v
print_value (Value.timestamp v h) = v
print_value (Value.int64 v h) = v
print_value (Value.int32 v h) = v
print_value (Value.object_id v h) = v
print_value (Value.boolean b) = b ∷ []
print_value Value.undefined = []
print_value Value.null = []
print_value Value.min_key = []
print_value Value.max_key = []
print_value (Value.string s) = print_int32 (length s) ++ s
print_value (Value.javascript s) = print_int32 (length s) ++ s
print_value (Value.symbol s) = print_int32 (length s) ++ s
print_value (Value.document b) = print_int32 (4 + length b) ++ b
print_value (Value.array b) = print_int32 (4 + length b) ++ b
print_value (Value.binary k b) = print_int32 (length b) ++ (k ∷ b)
print_value (Value.db_pointer s id h) = print_int32 (length s) ++ (s ++ id)

pub record Element : Type 0 where
  pub name : Bytes
  pub value : Value
  pub name_nul : Lacks 0 name
  pub short : length (print_value value) < 2 ^ 31

-- The elements, and the NUL at the end of the document.
abbrev pub print_elements : List Element → Bytes → Bytes
print_elements [] rest = 0 ∷ rest
print_elements (x ∷ xs) rest =
    tag x.value ∷ (x.name ++ (0 ∷ (print_value x.value ++ print_elements xs rest)))

abbrev pub matches : Bytes → ℕ → Element → Bool
matches name type x = str_eq x.name name && tag x.value == type

-- Where the value of the first element with the name and the type stands, if there is one.
abbrev pub value_position : ℕ → List Element → Bytes → ℕ → Option ℕ
value_position at [] name type = none
value_position at (x ∷ xs) name type =
    let here = at + 1 + length x.name + 1 in
    let later = value_position (here + length (print_value x.value)) xs name type in
    if matches name type x then some here else later
