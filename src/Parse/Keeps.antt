-- ===== src/Parse/Keeps.antt =====
-- What an option keeps, whatever its outcome: the addresses of the servers, one write concern, and
-- everything else if it is rejected.
use mongo_hhvm_driver.Base.{
  is_some, Option-cases, true, none, List, [], ◌∷◌, ◌≡◌, ◌⊎◌, inl, inr, refl, map,
}
use mongo_hhvm_driver.Base.Int.{ℤ, pos, negsuc, ltb_ℤ}
use mongo_hhvm_driver.CLib.{Bytes}
use mongo_hhvm_driver.Types.{ServerDef, ServerOptions, Servers}
use mongo_hhvm_driver.Parse.Outcome.{Outcome, done, discouraged, logic_error, set_servers, set_w}
use mongo_hhvm_driver.Parse.Options.{set_db, set_username}

pub record Address : Type 0 where
  pub host : Bytes
  pub port : ℤ

abbrev pub address : ServerDef → Address
address def = record { host = def.host; port = def.port }

-- The addresses of the servers, in their order.
abbrev pub addresses : Servers → List Address
addresses servers = map address servers.server

pub map-address :
    (f : ServerDef → ServerDef) (defs : List ServerDef)
    → ((def : ServerDef) → address (f def) ≡ address def)
    → map address (map f defs) ≡ map address defs
map-address f [] h = refl
map-address f (def ∷ defs) h = rw (h def, map-address f defs h) refl

pub set_db-address : (value : Bytes) (def : ServerDef) → address (set_db value def) ≡ address def
unfolding set_db
set_db-address value def = elim (Option-cases def.db) [ inl e ↦ rw e refl | inr e ↦ rw e.1 refl ]

pub set_username-address :
    (value : Bytes) (def : ServerDef) → address (set_username value def) ≡ address def
unfolding set_username
set_username-address value def = elim (Option-cases def.db) [
  | inl e ↦ rw e refl
  | inr e ↦ rw e.1 refl
]

-- A write concern is a number or a name, and `default_w` is -1 beside a name.
abbrev pub OneConcern : ServerOptions → Type 0
OneConcern options = (options.default_wstring ≡ none) ⊎ (options.default_w ≡ negsuc 0)

-- The servers with the write concern reset.
abbrev pub less_concern : Servers → Servers
less_concern servers = set_w servers (negsuc 0) none

pub record Keeps (servers : Servers) (outcome : Outcome) : Type 0 where
  pub same_addresses : addresses outcome.servers ≡ addresses servers
  pub reported : is_some outcome.error_message ≡ ltb_ℤ (pos 0) outcome.retval
  pub restored :
      ltb_ℤ (pos 0) outcome.retval ≡ true → less_concern outcome.servers ≡ less_concern servers
  pub concern : OneConcern servers.options → OneConcern outcome.servers.options

pub done-Keeps :
    (servers new : Servers)
    → addresses new ≡ addresses servers
    → (OneConcern servers.options → OneConcern new.options)
    → Keeps servers (done new)
done-Keeps servers new h k = record {
  same_addresses = h;
  reported = refl;
  restored = λ e. cc;
  concern = k;
}

pub discouraged-Keeps :
    (servers new : Servers)
    → addresses new ≡ addresses servers
    → (OneConcern servers.options → OneConcern new.options)
    → Keeps servers (discouraged new)
discouraged-Keeps servers new h k = record {
  same_addresses = h;
  reported = refl;
  restored = λ e. cc;
  concern = k;
}

pub logic_error-Keeps :
    (servers : Servers) (message : Bytes) → Keeps servers (logic_error servers message)
logic_error-Keeps servers message = record {
  same_addresses = refl;
  reported = refl;
  restored = λ e. refl;
  concern = λ k. k;
}

pub each-Keeps :
    (servers : Servers) (f : ServerDef → ServerDef)
    → ((def : ServerDef) → address (f def) ≡ address def)
    → Keeps servers (done (set_servers servers (map f servers.server)))
each-Keeps servers f h = done-Keeps servers _ (map-address f servers.server h) (λ k. k)
