-- ===== src/Bson/Written.antt =====
-- What the packets of src/mcon/mini_bson.c hold: a query with a document, both with the lengths that
-- they have.
use mongo_hhvm_driver.Base.{
  ◌>>=◌, ℕ, ◌+◌, Option, none, some, [], ◌∷◌, ◌++◌, ◌≡◌, refl, ap, sym, subst, length,
  length-append, arith, ◌<◌, append_assoc, append-nil,
}
use mongo_hhvm_driver.Base.Int.{ℤ, pos, negsuc}
use mongo_hhvm_driver.CLib.{Bytes}
use mongo_hhvm_driver.Str.{Str, init, addl}
use mongo_hhvm_driver.Str.Append.{Holds, str_limit, addl-Holds}
use mongo_hhvm_driver.Str.Patch.{init-Holds}
use mongo_hhvm_driver.Bson.Write.{
  int_bytes, int64_bytes, serialize_int, add_int32, add_long, add_stringl, add_string, namespace,
  create_simple_header,
}
use mongo_hhvm_driver.Bson.Packets.{add_optional}

-- The step succeeds on every buffer in which there is room for these bytes, and appends them.
abbrev pub Writes : (Str → Option Str) → Bytes → Type 0
Writes step bytes =
    (xs : Str) (old : Bytes)
    → Holds xs old
    → length (old ++ bytes) < str_limit
    → (xs' : Str) × (step xs ≡ some xs') × Holds xs' (old ++ bytes)

pub addl-Writes : (bytes : Bytes) → Writes (λ xs. addl xs bytes) bytes
addl-Writes bytes xs old h short =
    let (xs', e, h', _) = addl-Holds xs old bytes h short in (xs', e, h')

pub id_Writes : Writes some []
id_Writes xs old h short = (xs, refl, subst (Holds xs) (sym (append-nil old)) h)

pub seq_Writes :
    (f g : Str → Option Str) (u v : Bytes)
    → Writes f u
    → Writes g v
    → Writes (λ xs. f xs >>= g) (u ++ v)
seq_Writes f g u v p q xs old h short =
    let same : length ((old ++ u) ++ v) ≡ length (old ++ (u ++ v)) =
      ap length (append_assoc old u v) in
    let (xs₁, e₁, h₁) = p xs old h (omega (arith, length-append (old ++ u) v)) in
    let (xs₂, e₂, h₂) = q xs₁ (old ++ u) h₁ (omega arith) in
    (xs₂, rw e₁ e₂, subst (Holds xs₂) (append_assoc old u v) h₂)

pub to_Writes : (f : Str → Option Str) (u v : Bytes) → u ≡ v → Writes f u → Writes f v
to_Writes f u v e p = subst (Writes f) e p

-- A field as it is written: its type, its name and the bytes of its value.
abbrev pub field : ℕ → Bytes → Bytes → Bytes
field type name value = type ∷ (name ++ (0 ∷ value))

field_Writes :
    (type : ℕ) (name value : Bytes) (g : Str → Option Str)
    → Writes g value
    → Writes
        (λ xs. addl xs (type ∷ []) >>= λ typed. addl typed (name ++ (0 ∷ [])) >>= g)
        (field type name value)
field_Writes type name value g p =
    to_Writes _ _ _ (ap (◌∷◌ type) (append_assoc name (0 ∷ []) value)) (
      seq_Writes (λ xs. addl xs (type ∷ [])) (λ typed. addl typed (name ++ (0 ∷ [])) >>= g)
        (type ∷ []) ((name ++ (0 ∷ [])) ++ value) (addl-Writes (type ∷ []))
        (seq_Writes (λ typed. addl typed (name ++ (0 ∷ []))) g (name ++ (0 ∷ [])) value
          (addl-Writes (name ++ (0 ∷ []))) p))

pub add_int32-Writes :
    (name : Bytes) (v : ℤ) → Writes (add_int32 name v) (field 16 name (int_bytes v))
unfolding add_int32
add_int32-Writes name v = field_Writes 16 name (int_bytes v) _ (addl-Writes (int_bytes v))

pub add_long-Writes :
    (name : Bytes) (v : ℤ) → Writes (add_long name v) (field 18 name (int64_bytes v))
unfolding add_long
add_long-Writes name v = field_Writes 18 name (int64_bytes v) _ (addl-Writes (int64_bytes v))

-- A string's value: the length that the caller gives, the characters and a NUL
abbrev pub stringl_field : Bytes → Bytes → ℤ → Bytes
stringl_field name string len = field 2 name (int_bytes len ++ (string ++ (0 ∷ [])))

pub add_stringl-Writes :
    (name string : Bytes) (len : ℤ)
    → Writes (add_stringl name string len) (stringl_field name string len)
unfolding add_stringl
add_stringl-Writes name string len = field_Writes 2 name (int_bytes len ++ (string ++ (0 ∷ []))) _ (
    seq_Writes (λ xs. addl xs (int_bytes len)) _ (int_bytes len) (string ++ (0 ∷ []))
      (addl-Writes (int_bytes len))
      (seq_Writes (λ xs. addl xs string) _ string (0 ∷ []) (addl-Writes string)
        (addl-Writes (0 ∷ []))))

abbrev pub string_field : Bytes → Bytes → Bytes
string_field name string = stringl_field name string (pos (length string + 1))

pub add_string-Writes :
    (name string : Bytes) → Writes (add_string name string) (string_field name string)
unfolding add_string
add_string-Writes name string = add_stringl-Writes name string (pos (length string + 1))

abbrev pub optional_field : Bytes → Option Bytes → Bytes
optional_field name none = []
optional_field name (some string) = string_field name string

pub add_optional-Writes :
    (name : Bytes) (string : Option Bytes)
    → Writes (add_optional name string) (optional_field name string)
add_optional-Writes name none = id_Writes
add_optional-Writes name (some string) = add_string-Writes name string

-- The header behind the packet's length: request number, response to, OP_QUERY, the flag for slaves,
-- the namespace, the numbers to skip and to return
abbrev pub header_tail : ℕ → Option Bytes → Bytes
header_tail reqid ns =
    int_bytes (pos reqid)
    ++ (int_bytes (pos 0)
        ++ (int_bytes (pos 2004)
            ++ (int_bytes (pos 4)
                ++ (namespace ns ++ (int_bytes (pos 0) ++ int_bytes (negsuc 0))))))

pub header_Writes :
    (reqid : ℕ) (ns : Option Bytes)
    → length (int_bytes (pos 0) ++ header_tail reqid ns) < str_limit
    → (xs : Str) × (create_simple_header reqid ns ≡ some xs)
      × Holds xs (int_bytes (pos 0) ++ header_tail reqid ns)
unfolding create_simple_header
header_Writes reqid ns short =
    let int : (num : ℤ) → Writes (λ xs. serialize_int xs num) (int_bytes num) =
      λ num. unfold serialize_int in addl-Writes (int_bytes num) in
    seq_Writes _ _ (int_bytes (pos 0)) (header_tail reqid ns) (int (pos 0))
      (seq_Writes _ _ (int_bytes (pos reqid)) _ (int (pos reqid)) (
        seq_Writes _ _ (int_bytes (pos 0)) _ (int (pos 0)) (
          seq_Writes _ _ (int_bytes (pos 2004)) _ (int (pos 2004)) (
            seq_Writes _ _ (int_bytes (pos 4)) _ (int (pos 4)) (
              seq_Writes _ _ (namespace ns) _ (addl-Writes (namespace ns))
                (seq_Writes _ _ (int_bytes (pos 0)) _ (int (pos 0)) (int (negsuc 0))))))))
      init [] init-Holds short
