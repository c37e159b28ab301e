-- ===== src/Manager/Contains.antt =====
-- `mongo_servers_contains`.
use mongo_hhvm_driver.Base.{
  ℕ, Bool, true, false, ◌&&◌, ◌||◌, Option, none, some, List, [], ◌∷◌, ◌==◌, ◌≡◌, ◌↔◌, ◌⊎◌, refl,
  sym, ap, inl, inr, arith, ◌-◌, ==_iff, ◌∙◌, get_elem?, some-injective,
}
use mongo_hhvm_driver.Base.Int.{ℤ, eqb_ℤ, eqb_ℤ→eq}
use mongo_hhvm_driver.CLib.{Bytes, str_eq, str_eq_iff, str_eq_refl}
use mongo_hhvm_driver.Types.{Mechanism, ServerDef}

-- The value of MONGO_AUTH_MECHANISM_*
abbrev mechanism_code : Mechanism → ℕ
mechanism_code Mechanism.mongodb_cr = 1
mechanism_code Mechanism.gssapi = 2
mechanism_code Mechanism.plain = 3
mechanism_code Mechanism.mongodb_x509 = 4
mechanism_code Mechanism.scram_sha1 = 5

-- mongo_strings_equal_or_null
unfoldable pub equal_or_null : Option Bytes → Option Bytes → Bool
equal_or_null none none = true
equal_or_null (some a) (some b) = str_eq a b
equal_or_null _ _ = false

unfoldable pub same_server : ServerDef → ServerDef → Bool
unfolding equal_or_null
same_server a b =
    mechanism_code a.mechanism == mechanism_code b.mechanism
    && (eqb_ℤ a.port b.port
        && (str_eq a.host b.host
            && (equal_or_null a.repl_set_name b.repl_set_name
                && (equal_or_null a.db b.db
                    && (equal_or_null a.authdb b.authdb
                        && (equal_or_null a.username b.username
                            && equal_or_null a.password b.password))))))

-- mongo_servers_contains
unfoldable pub contains : List ServerDef → ServerDef → Bool
unfolding same_server
contains [] def = false
contains (server ∷ servers) def = same_server server def || contains servers def

abbrev pub IsAmong : ServerDef → List ServerDef → Type 0
IsAmong def [] = ⊥
IsAmong def (server ∷ servers) = (server ≡ def) ⊎ IsAmong def servers

equal_or_null_iff : (a b : Option Bytes) → (equal_or_null a b ≡ true) ↔ (a ≡ b)
unfolding equal_or_null
equal_or_null_iff none none = (λ e. refl, λ e. refl)
equal_or_null_iff none (some b) = (λ e. cc, λ e. cc)
equal_or_null_iff (some a) none = (λ e. cc, λ e. cc)
equal_or_null_iff (some a) (some b) =
    (λ e. ap some ((str_eq_iff a b).0 e), λ e. (str_eq_iff a b).1 (some-injective a b e))

and_iff : (a b : Bool) → ((a && b) ≡ true) ↔ ((a ≡ true) × (b ≡ true))
and_iff true b = (λ e. (refl, e), λ e. e.1)
and_iff false b = (λ e. cc, λ e. cc)

or_iff : (a b : Bool) → ((a || b) ≡ true) ↔ ((a ≡ true) ⊎ (b ≡ true))
or_iff true b = (λ e. inl refl, λ e. refl)
or_iff false b = (λ e. inr e, λ e. elim e [ inl f ↦ cc | inr f ↦ f ])

abbrev mechanisms : List Mechanism
mechanisms =
    Mechanism.mongodb_cr ∷ Mechanism.gssapi ∷ Mechanism.plain ∷ Mechanism.mongodb_x509
    ∷ Mechanism.scram_sha1 ∷ []

mechanism_by_code : (a : Mechanism) → get_elem? mechanisms (mechanism_code a - 1) ≡ some a
mechanism_by_code Mechanism.mongodb_cr = refl
mechanism_by_code Mechanism.gssapi = refl
mechanism_by_code Mechanism.plain = refl
mechanism_by_code Mechanism.mongodb_x509 = refl
mechanism_by_code Mechanism.scram_sha1 = refl

mechanism_code-injective : (a b : Mechanism) → mechanism_code a ≡ mechanism_code b → a ≡ b
mechanism_code-injective a b h =
    some-injective a b
      (sym (mechanism_by_code a) ∙ (ap (λ n. get_elem? mechanisms (n - 1)) h ∙ mechanism_by_code b))

eqb_refl : (a : ℤ) → eqb_ℤ a a ≡ true
eqb_refl a = ground arith

same_server_refl : (a : ServerDef) → same_server a a ≡ true
unfolding same_server
same_server_refl a =
    let opt : (o : Option Bytes) → equal_or_null o o ≡ true = λ o. (equal_or_null_iff o o).1 refl in
    rw
      (
        (==_iff (mechanism_code a.mechanism) (mechanism_code a.mechanism)).1 refl,
        eqb_refl a.port,
        str_eq_refl a.host,
        opt a.repl_set_name,
        opt a.db,
        opt a.authdb,
        opt a.username,
        opt a.password,
      )
      refl

server_ext :
    (a b : ServerDef)
    → a.host ≡ b.host
    → a.port ≡ b.port
    → a.repl_set_name ≡ b.repl_set_name
    → a.db ≡ b.db
    → a.authdb ≡ b.authdb
    → a.username ≡ b.username
    → a.password ≡ b.password
    → a.mechanism ≡ b.mechanism
    → a ≡ b
server_ext a b h p r d s u w m = rw (h, p, r, d, s, u, w, m) refl

same_server-eq : (a b : ServerDef) → same_server a b ≡ true → a ≡ b
unfolding same_server
same_server-eq a b h =
    let c₇ : Bool = equal_or_null a.password b.password in
    let c₆ : Bool = equal_or_null a.username b.username && c₇ in
    let c₅ : Bool = equal_or_null a.authdb b.authdb && c₆ in
    let c₄ : Bool = equal_or_null a.db b.db && c₅ in
    let c₃ : Bool = equal_or_null a.repl_set_name b.repl_set_name && c₄ in
    let c₂ : Bool = str_eq a.host b.host && c₃ in
    let c₁ : Bool = eqb_ℤ a.port b.port && c₂ in
    let (m, h₁) = (and_iff (mechanism_code a.mechanism == mechanism_code b.mechanism) c₁).0 h in
    let (p, h₂) = (and_iff (eqb_ℤ a.port b.port) c₂).0 h₁ in
    let (n, h₃) = (and_iff (str_eq a.host b.host) c₃).0 h₂ in
    let (r, h₄) = (and_iff (equal_or_null a.repl_set_name b.repl_set_name) c₄).0 h₃ in
    let (d, h₅) = (and_iff (equal_or_null a.db b.db) c₅).0 h₄ in
    let (s, h₆) = (and_iff (equal_or_null a.authdb b.authdb) c₆).0 h₅ in
    let (u, w) = (and_iff (equal_or_null a.username b.username) c₇).0 h₆ in
    server_ext a b ((str_eq_iff _ _).0 n) (eqb_ℤ→eq _ _ p) ((equal_or_null_iff _ _).0 r)
      ((equal_or_null_iff _ _).0 d) ((equal_or_null_iff _ _).0 s) ((equal_or_null_iff _ _).0 u)
      ((equal_or_null_iff _ _).0 w) (mechanism_code-injective _ _ ((==_iff _ _).0 m))

-- A definition is contained exactly when one of the servers is equal to it in all its fields.
pub contains_iff :
    (servers : List ServerDef) (def : ServerDef)
    → (contains servers def ≡ true) ↔ IsAmong def servers
unfolding contains
contains_iff [] def = (λ e. cc, λ k. absurd k)
contains_iff (server ∷ servers) def = (
  λ e. elim ((or_iff (same_server server def) (contains servers def)).0 e) [
    | inl same ↦ inl (same_server-eq server def same)
    | inr later ↦ inr ((contains_iff servers def).0 later)
  ],
  λ k. (or_iff (same_server server def) (contains servers def)).1 (elim k [
    | inl same ↦ inl (rw same (same_server_refl def))
    | inr later ↦ inr ((contains_iff servers def).1 later)
  ]),
)
