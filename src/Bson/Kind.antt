-- ===== src/Bson/Kind.antt =====
-- The values that the typed readers read, told apart by the type byte.
use mongo_hhvm_driver.Base.{ℕ, false, ◌==◌, length, ◌≡◌, refl}
use mongo_hhvm_driver.CLib.{Bytes}
use mongo_hhvm_driver.Bson.Document.{Value, tag}

pub data Kind : Value → Type 0 where
  a_double : (b : Bytes) (h : length b ≡ 8) → Kind (Value.double b h)
  a_string : (s : Bytes) → Kind (Value.string s)
  a_boolean : (b : ℕ) → Kind (Value.boolean b)
  an_int32 : (b : Bytes) (h : length b ≡ 4) → Kind (Value.int32 b h)
  a_long : (b : Bytes) (h : length b ≡ 8) → Kind (Value.int64 b h)
  another :
      (v : Value)
      → (tag v == 1) ≡ false
      → (tag v == 2) ≡ false
      → (tag v == 8) ≡ false
      → (tag v == 16) ≡ false
      → (tag v == 18) ≡ false
      → Kind v

pub Kind-of : (v : Value) → Kind v
Kind-of (Value.double b h) = Kind.a_double b h
Kind-of (Value.string s) = Kind.a_string s
Kind-of (Value.boolean b) = Kind.a_boolean b
Kind-of (Value.int32 b h) = Kind.an_int32 b h
Kind-of (Value.datetime b h) = Kind.another _ refl refl refl refl refl
Kind-of (Value.timestamp b h) = Kind.another _ refl refl refl refl refl
Kind-of (Value.int64 b h) = Kind.a_long b h
Kind-of (Value.object_id b h) = Kind.another _ refl refl refl refl refl
Kind-of Value.undefined = Kind.another _ refl refl refl refl refl
Kind-of Value.null = Kind.another _ refl refl refl refl refl
Kind-of Value.min_key = Kind.another _ refl refl refl refl refl
Kind-of Value.max_key = Kind.another _ refl refl refl refl refl
Kind-of (Value.javascript s) = Kind.another _ refl refl refl refl refl
Kind-of (Value.symbol s) = Kind.another _ refl refl refl refl refl
Kind-of (Value.document b) = Kind.another _ refl refl refl refl refl
Kind-of (Value.array b) = Kind.another _ refl refl refl refl refl
Kind-of (Value.binary k b) = Kind.another _ refl refl refl refl refl
Kind-of (Value.db_pointer s id h) = Kind.another _ refl refl refl refl refl
