-- ===== src/Bson/ReadAt.antt =====
-- The typed readers at a place where the bytes of a value of their type stand.
use mongo_hhvm_driver.Base.{
  ◌^◌, ◌>>=◌, ℕ, ◌+◌, ◌-◌, ◌<◌, true, Option, none, some, [], ◌∷◌, ◌++◌, ◌==◌, length, take, drop,
  drop_behind, length-drop, length-append, take-append_left, get_elem?, get_elem?-drop, leb,
  is_some, ◌≡◌, refl, ap, ◌∙◌, sym, arith, Option-cases, inl, inr,
}
use mongo_hhvm_driver.Base.Int.{ℤ, pos, signed32}
use mongo_hhvm_driver.CLib.{Bytes, split_at, split_at-prefix}
use mongo_hhvm_driver.Bson.Document.{Value, tag, print_int32, print_value}
use mongo_hhvm_driver.Bson.Kind.{Kind}
use mongo_hhvm_driver.Bson.Values.{
  little_endian, up_to_nul, as_int32, as_int64, as_double, as_bool, as_text, as_sized_text, HasNul,
  cstring-up_to_nul, little_endian-print_int32,
}
use mongo_hhvm_driver.Bson.Walk.{drop_one}
use mongo_hhvm_driver.Bson.Reader.{cstring, read_int32}
use mongo_hhvm_driver.Bson.Fields.{read_with, read_bytes, read_stringl}

int32_here :
    (buf v rest : Bytes) (at : ℕ)
    → length v ≡ 4
    → drop at buf ≡ v ++ rest
    → read_int32 buf at ≡ some (signed32 (little_endian v))
unfolding read_int32
int32_here buf (a ∷ b ∷ c ∷ d ∷ []) rest at h e =
    let e₁ = drop_one buf at _ _ e in
    let e₂ = drop_one buf (at + 1) _ _ e₁ in
    let e₃ = drop_one buf (at + 1 + 1) _ _ e₂ in
    let two : at + 1 + 1 ≡ at + 2 = omega arith in
    let three : at + 1 + 1 + 1 ≡ at + 3 = omega arith in
    rw (get_elem?-drop at buf _ _ e, get_elem?-drop (at + 1) buf _ _ e₁)
      (rw
        (
          rw two at (get_elem?-drop (at + 1 + 1) buf _ _ e₂),
          rw three at (get_elem?-drop (at + 1 + 1 + 1) buf _ _ e₃),
        )
        (ap (λ n. some (signed32 n)) (omega arith)))
int32_here buf [] rest at h e = absurd (omega arith)
int32_here buf (a ∷ []) rest at h e = absurd (omega arith)
int32_here buf (a ∷ b ∷ []) rest at h e = absurd (omega arith)
int32_here buf (a ∷ b ∷ c ∷ []) rest at h e = absurd (omega arith)
int32_here buf (a ∷ b ∷ c ∷ d ∷ x ∷ more) rest at h e = absurd (omega arith)

has_nul : (s : Bytes) → is_some (cstring s 0) ≡ true → is_some (split_at 0 s) ≡ true
has_nul s h = elim (Option-cases (split_at 0 s)) [
  | inl missing ↦ let no = rw missing at h in cc
  | inr (parts, there) ↦ rw there refl
]

pub text_here :
    (buf s rest : Bytes) (at n : ℕ)
    → is_some (cstring s 0) ≡ true
    → drop at buf ≡ print_int32 n ++ (s ++ rest)
    → cstring buf (at + 4) ≡ cstring s 0
text_here buf s rest at n h e =
    let behind : drop (at + 4) buf ≡ s ++ rest = drop_behind buf (print_int32 n) (s ++ rest) at e in
    ap (λ bytes. split_at 0 bytes >>= λ parts. some parts.0) behind
    ∙ split_at-prefix 0 s rest (has_nul s h)

text_there :
    (buf s rest : Bytes) (at n : ℕ)
    → is_some (up_to_nul s) ≡ true
    → drop at buf ≡ print_int32 n ++ (s ++ rest)
    → cstring buf (at + 4) ≡ up_to_nul s
text_there buf s rest at n h e =
    text_here buf s rest at n (ap is_some (cstring-up_to_nul s) ∙ h) e ∙ cstring-up_to_nul s

bytes_here :
    (buf v rest : Bytes) (at n : ℕ)
    → length v ≡ n
    → 0 < n
    → drop at buf ≡ v ++ rest
    → read_bytes buf n at ≡ some v
unfolding read_bytes
bytes_here buf v rest at n h more e =
    let rest_of : length buf - at ≡ length v + length rest =
      sym (length-drop at buf) ∙ (ap length e ∙ length-append v rest) in
    let long : leb (at + n) (length buf) ≡ true = ground arith in
    let taken : take n (v ++ rest) ≡ v =
      ap (λ k. take k (v ++ rest)) (sym h) ∙ take-append_left v rest in
    rw long (ap some (ap (take n) e ∙ taken))

wrapped : {A : Type 0} (o : Option A) → is_some o ≡ true → (o >>= λ v. some (some v)) ≡ some o
wrapped none h = cc
wrapped (some a) h = refl

-- A reader at a place: what it reads if its bytes are those of the value
read_here :
    {A : Type 0} (read : ℕ → Option A) (at : ℕ) (o : Option A)
    → read at ≡ o
    → is_some o ≡ true
    → read_with read (some at) ≡ some o
read_here read at o e h = ap (λ r. r >>= λ v. some (some v)) e ∙ wrapped o h

pub int32_at :
    (buf : Bytes) (at : ℕ) (v : Value) (rest : Bytes)
    → Kind v
    → (tag v == 16) ≡ true
    → drop at buf ≡ print_value v ++ rest
    → read_with (read_int32 buf) (some at) ≡ some (as_int32 v)
int32_at buf at v rest (Kind.an_int32 b h) t e =
    read_here (read_int32 buf) at (some (signed32 (little_endian b))) (int32_here buf b rest at h e)
      refl
int32_at buf at v rest (Kind.a_double b h) t e = cc
int32_at buf at v rest (Kind.a_string s) t e = cc
int32_at buf at v rest (Kind.a_boolean b) t e = cc
int32_at buf at v rest (Kind.a_long b h) t e = cc
int32_at buf at v rest (Kind.another _ n₁ n₂ n₈ n₁₆ n₁₈) t e = cc

pub double_at :
    (buf : Bytes) (at : ℕ) (v : Value) (rest : Bytes)
    → Kind v
    → (tag v == 1) ≡ true
    → drop at buf ≡ print_value v ++ rest
    → read_with (read_bytes buf 8) (some at) ≡ some (as_double v)
double_at buf at v rest (Kind.a_double b h) t e =
    read_here (read_bytes buf 8) at (some b) (bytes_here buf b rest at 8 h (omega arith) e) refl
double_at buf at v rest (Kind.an_int32 b h) t e = cc
double_at buf at v rest (Kind.a_string s) t e = cc
double_at buf at v rest (Kind.a_boolean b) t e = cc
double_at buf at v rest (Kind.a_long b h) t e = cc
double_at buf at v rest (Kind.another _ n₁ n₂ n₈ n₁₆ n₁₈) t e = cc

pub bool_at :
    (buf : Bytes) (at : ℕ) (v : Value) (rest : Bytes)
    → Kind v
    → (tag v == 8) ≡ true
    → drop at buf ≡ print_value v ++ rest
    → read_with (get_elem? buf) (some at) ≡ some (as_bool v)
bool_at buf at v rest (Kind.a_boolean b) t e =
    read_here (get_elem? buf) at (some b) (get_elem?-drop at buf b rest e) refl
bool_at buf at v rest (Kind.a_double b h) t e = cc
bool_at buf at v rest (Kind.an_int32 b h) t e = cc
bool_at buf at v rest (Kind.a_string s) t e = cc
bool_at buf at v rest (Kind.a_long b h) t e = cc
bool_at buf at v rest (Kind.another _ n₁ n₂ n₈ n₁₆ n₁₈) t e = cc

pub long_at :
    (buf : Bytes) (at : ℕ) (v : Value) (rest : Bytes)
    → Kind v
    → (tag v == 18) ≡ true
    → drop at buf ≡ print_value v ++ rest
    → read_with (read_bytes buf 8) (some at) ≡ some (as_int64 v)
long_at buf at v rest (Kind.a_long b h) t e =
    read_here (read_bytes buf 8) at (some b) (bytes_here buf b rest at 8 h (omega arith) e) refl
long_at buf at v rest (Kind.a_boolean b) t e = cc
long_at buf at v rest (Kind.a_double b h) t e = cc
long_at buf at v rest (Kind.an_int32 b h) t e = cc
long_at buf at v rest (Kind.a_string s) t e = cc
long_at buf at v rest (Kind.another _ n₁ n₂ n₈ n₁₆ n₁₈) t e = cc

pub text_at :
    (buf : Bytes) (at : ℕ) (v : Value) (rest : Bytes)
    → Kind v
    → HasNul v
    → (tag v == 2) ≡ true
    → drop at buf ≡ print_value v ++ rest
    → read_with (λ value. cstring buf (value + 4)) (some at) ≡ some (as_text v)
text_at buf at v rest (Kind.a_string s) nul t e =
    let behind : drop at buf ≡ print_int32 (length s) ++ (s ++ rest) = e in
    read_here (λ value. cstring buf (value + 4)) at (up_to_nul s)
      (text_there buf s rest at (length s) nul behind) nul
text_at buf at v rest (Kind.a_boolean b) nul t e = cc
text_at buf at v rest (Kind.a_double b h) nul t e = cc
text_at buf at v rest (Kind.an_int32 b h) nul t e = cc
text_at buf at v rest (Kind.a_long b h) nul t e = cc
text_at buf at v rest (Kind.another _ n₁ n₂ n₈ n₁₆ n₁₈) nul t e = cc

-- A string with a NUL, whose length is an `int`
abbrev pub IsSound : Value → Type 0
IsSound v = HasNul v × (length (print_value v) < 2 ^ 31)

sized_here :
    (buf : Bytes) (at : ℕ) (n : ℤ) (o : Option Bytes)
    → read_int32 buf at ≡ some n
    → cstring buf (at + 4) ≡ o
    → is_some o ≡ true
    → read_with (read_stringl buf) (some at) ≡ some (o >>= λ text. some (n, text))
sized_here buf at n none e e' h = cc
sized_here buf at n (some text) e e' h = rw e (rw e' refl)

pub sized_text_at :
    (buf : Bytes) (at : ℕ) (v : Value) (rest : Bytes)
    → Kind v
    → IsSound v
    → (tag v == 2) ≡ true
    → drop at buf ≡ print_value v ++ rest
    → read_with (read_stringl buf) (some at) ≡ some (as_sized_text v)
sized_text_at buf at v rest (Kind.a_string s) sound t e =
    let behind : drop at buf ≡ print_int32 (length s) ++ (s ++ rest) = e in
    sized_here buf at (pos (length s)) (up_to_nul s)
      (int32_here buf (print_int32 (length s)) (s ++ rest) at refl behind
        ∙ ap some (little_endian-print_int32 (length s) (omega (arith, sound.1))))
      (text_there buf s rest at (length s) sound.0 behind) sound.0
sized_text_at buf at v rest (Kind.a_boolean b) sound t e = cc
sized_text_at buf at v rest (Kind.a_double b h) sound t e = cc
sized_text_at buf at v rest (Kind.an_int32 b h) sound t e = cc
sized_text_at buf at v rest (Kind.a_long b h) sound t e = cc
sized_text_at buf at v rest (Kind.another _ n₁ n₂ n₈ n₁₆ n₁₈) sound t e = cc
