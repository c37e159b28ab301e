-- ===== src/Parse/Copy.antt =====
-- `mongo_server_def_copy`, `mongo_servers_copy`, `mongo_read_preference_copy` and
-- `mongo_read_preference_replace`. A copy of a string is the string.
use mongo_hhvm_driver.Base.{
  Bool, true, Option, none, some, List, [], ◌∷◌, map, ◌≡◌, refl, if◌then◌else◌,
}
use mongo_hhvm_driver.CLib.{Bytes}
use mongo_hhvm_driver.Types.{Mechanism, ReadPreference, ServerDef, ServerOptions, Servers}
use mongo_hhvm_driver.Parse.Outcome.{parse_init}

-- `if (from->x) { to->x = ... }`
abbrev pub or_old {ℓ} : {A : Type ℓ} → Option A → Option A → Option A
or_old none old = old
or_old (some a) old = some a

-- mongo_server_def_copy, with or without MONGO_SERVER_COPY_CREDENTIALS
unfoldable pub server_def_copy : Bool → ServerDef → ServerDef
server_def_copy credentials from = record {
  host = from.host;
  port = from.port;
  repl_set_name = from.repl_set_name;
  db = if credentials then from.db else none;
  authdb = if credentials then from.authdb else none;
  username = if credentials then from.username else none;
  password = if credentials then from.password else none;
  mechanism = if credentials then from.mechanism else Mechanism.mongodb_cr;
}

-- mongo_read_preference_copy
unfoldable pub read_preference_copy : ReadPreference → ReadPreference
read_preference_copy from = record { type = from.type; tagsets = from.tagsets }

-- mongo_read_preference_replace: what `to` held is freed.
unfoldable pub read_preference_replace : ReadPreference → ReadPreference → ReadPreference
unfolding read_preference_copy
read_preference_replace from to = read_preference_copy from

unfoldable pub options_copy : ServerOptions → ServerOptions → ServerOptions
options_copy to from = record {
  con_type = from.con_type;
  repl_set_name = or_old from.repl_set_name to.repl_set_name;
  connect_timeout_ms = from.connect_timeout_ms;
  socket_timeout_ms = from.socket_timeout_ms;
  secondary_acceptable_latency_ms = from.secondary_acceptable_latency_ms;
  default_w = from.default_w;
  default_wstring = or_old from.default_wstring to.default_wstring;
  default_wtimeout = from.default_wtimeout;
  default_fsync = from.default_fsync;
  default_journal = from.default_journal;
  ssl = from.ssl;
  gssapi_service_name = or_old from.gssapi_service_name to.gssapi_service_name;
  ctx = or_old from.ctx to.ctx;
}

-- mongo_servers_copy
unfoldable pub servers_copy : Servers → Servers → Bool → Servers
unfolding server_def_copy options_copy read_preference_copy
servers_copy to from credentials = record {
  server = map (server_def_copy credentials) from.server;
  options = options_copy to.options from.options;
  read_pref = read_preference_copy from.read_pref;
}

or_old-none {ℓ} : {A : Type ℓ} (a : Option A) → or_old a none ≡ a
or_old-none none = refl
or_old-none (some a) = refl

copy_all : (defs : List ServerDef) → map (server_def_copy true) defs ≡ defs
unfolding server_def_copy
copy_all [] = refl
copy_all (def ∷ defs) = rw (copy_all defs) refl

-- A copy with the credentials, made on what `mongo_parse_init` returns, is the original, where the
-- original has a GSSAPI service name, as everything that was parsed has.
pub servers_copy_all :
    (from : Servers) (service : Bytes)
    → from.options.gssapi_service_name ≡ some service
    → servers_copy parse_init from true ≡ from
unfolding servers_copy options_copy read_preference_copy
servers_copy_all from service e =
    rw
      (
        copy_all from.server,
        or_old-none from.options.repl_set_name,
        or_old-none from.options.default_wstring,
        or_old-none from.options.ctx,
      )
      (rw e refl)
