-- ===== src/Base/Options.antt =====
-- Chains of steps that may fail: a NULL that is followed, or a write outside a block.
use mathlib.Core.Option.{Option, none, some}
use mathlib.Core.Path.{◌≡◌, refl, subst}
use mathlib.Core.Bool.{Bool, true, false}

infixl 5 ◌>>=◌
abbrev pub ◌>>=◌ {ℓ κ} : {A : Type ℓ} {B : Type κ} → Option A → (A → Option B) → Option B
none >>= f = none
some a >>= f = f a

-- A chain that succeeds: each of its steps did.
pub >>=-eq-some {ℓ κ} :
    {A : Type ℓ} {B : Type κ} (m : Option A) (f : A → Option B) {b : B}
    → (m >>= f) ≡ some b
    → (a : A) × (m ≡ some a) × (f a ≡ some b)
>>=-eq-some none f h = cc
>>=-eq-some (some a) f h = (a, refl, h)

pub some-injective {ℓ} : {A : Type ℓ} (a b : A) → some a ≡ some b → a ≡ b
some-injective a b h = cc

-- A chain fails if one of its steps does, wherever it stands.
pub >>=-none {ℓ κ ι} :
    {A : Type ℓ} {B : Type κ} {C : Type ι} (m : Option A) (k : A → Option B) (g : A → B → Option C)
    → (m >>= k) ≡ none
    → (m >>= λ a. k a >>= g a) ≡ none
>>=-none none k g h = refl
>>=-none (some a) k g h = rw h

pub >>=-all_none {ℓ κ} :
    {A : Type ℓ} {B : Type κ} (m : Option A) (f : A → Option B)
    → ((a : A) → f a ≡ none)
    → (m >>= f) ≡ none
>>=-all_none none f h = refl
>>=-all_none (some a) f h = h a

abbrev pub is_some {ℓ} : {A : Type ℓ} → Option A → Bool
is_some none = false
is_some (some _) = true

-- What a computation gives, if it gives anything, has the property.
pub data Sure {ℓ κ} {A : Type ℓ} (P : A → Type κ) : Option A → Type (ℓ ⊔ κ) where
  nothing : Sure P none
  just : (a : A) → P a → Sure P (some a)

pub Sure-value {ℓ κ} :
    {A : Type ℓ} (P : A → Type κ) (m : Option A) (a : A) → m ≡ some a → Sure P m → P a
Sure-value P none a e h = cc
Sure-value P (some b) a e (Sure.just _ h) = subst P (some-injective b a e) h

pub >>=-Sure {ℓ κ ι} :
    {A : Type ℓ} {B : Type κ} (Q : B → Type ι) (m : Option A) (f : A → Option B)
    → ((a : A) → m ≡ some a → Sure Q (f a))
    → Sure Q (m >>= f)
>>=-Sure Q none f h = Sure.nothing
>>=-Sure Q (some a) f h = h a refl
