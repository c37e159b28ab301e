-- ===== src/Parse/Options.antt =====
-- `mongo_store_option`: one function for each option, and the chain of comparisons of the name.
-- What is only logged is left out.
use mongo_hhvm_driver.Base.{
  ℕ, Bool, true, false, ◌||◌, Option, none, some, [], ◌∷◌, ◌++◌, map, if◌then◌else◌, take,
}
use mongo_hhvm_driver.Base.Int.{pos, negsuc, ltb_ℤ, eqb_ℤ, to_int}
use mongo_hhvm_driver.CLib.{Bytes, codes, str_eq, str_case_eq, atoi, strtol}
use mongo_hhvm_driver.Types.{RpType, ConType, Mechanism, ReadPreference, ServerDef, Servers}
use mongo_hhvm_driver.Parse.Outcome.{
  Outcome, done, discouraged, logic_error, set_options, set_servers, set_type, set_w,
}

-- strcasecmp(value, "true") == 0 || strcmp(value, "1") == 0
unfoldable pub is_yes : Bytes → Bool
is_yes value = str_case_eq value (codes "true") || str_eq value (codes "1")

unfoldable pub mechanism_of : Bytes → Option Mechanism
mechanism_of value =
    if str_case_eq value (codes "MONGODB-CR")
    then some Mechanism.mongodb_cr
    else if str_case_eq value (codes "SCRAM-SHA-1")
    then some Mechanism.scram_sha1
    else if str_case_eq value (codes "MONGODB-X509")
    then some Mechanism.mongodb_x509
    else if str_case_eq value (codes "GSSAPI")
    then some Mechanism.gssapi
    else if str_case_eq value (codes "PLAIN")
    then some Mechanism.plain
    else none

abbrev pub set_mechanism : Mechanism → ServerDef → ServerDef
set_mechanism m def = record def { mechanism = m }

abbrev pub set_authdb : Bytes → ServerDef → ServerDef
set_authdb value def = record def { authdb = some value }

abbrev pub set_password : Bytes → ServerDef → ServerDef
set_password value def = record def { password = some value }

abbrev pub set_repl_set_name : Bytes → ServerDef → ServerDef
set_repl_set_name value def = record def { repl_set_name = some value }

unfoldable pub store_auth_mechanism : Servers → Bytes → Outcome
store_auth_mechanism servers value = elim (mechanism_of value) [
  | none ↦ logic_error servers (codes "The authMechanism '" ++ (value ++ codes "' does not exist."))
  | some m ↦ done (set_servers servers (map (set_mechanism m) servers.server))
]

unfoldable pub store_auth_source : Servers → Bytes → Outcome
store_auth_source servers value = done (set_servers servers (map (set_authdb value) servers.server))

unfoldable pub store_connect_timeout : Servers → Bytes → Outcome
store_connect_timeout servers value =
    done (set_options servers (record (servers.options) { connect_timeout_ms = atoi value }))

-- A database that is replaced takes the authentication database with it.
unfoldable pub set_db : Bytes → ServerDef → ServerDef
set_db value def = elim def.db [
  | none ↦ record def { db = some value }
  | some _ ↦ record def { db = some value; authdb = none }
]

unfoldable pub store_db : Servers → Bytes → Outcome
store_db servers value = done (set_servers servers (map (set_db value) servers.server))

unfoldable pub store_fsync : Servers → Bytes → Outcome
store_fsync servers value =
    done (set_options servers (record (servers.options) { default_fsync = is_yes value }))

unfoldable pub store_journal : Servers → Bytes → Outcome
store_journal servers value =
    done (set_options servers (record (servers.options) { default_journal = is_yes value }))

unfoldable pub store_password : Servers → Bytes → Outcome
store_password servers value = done (set_servers servers (map (set_password value) servers.server))

unfoldable pub rp_type_of : Bytes → Option RpType
rp_type_of value =
    if str_case_eq value (codes "primary")
    then some RpType.primary
    else if str_case_eq value (codes "primaryPreferred")
    then some RpType.primary_preferred
    else if str_case_eq value (codes "secondary")
    then some RpType.secondary
    else if str_case_eq value (codes "secondaryPreferred")
    then some RpType.secondary_preferred
    else if str_case_eq value (codes "nearest")
    then some RpType.nearest
    else none

unfoldable pub store_read_preference : Servers → Bytes → Outcome
store_read_preference servers value = elim (rp_type_of value) [
  | none ↦
      logic_error servers
        (codes "The readPreference value '" ++ (value ++ codes "' is not supported."))
  | some type ↦ done (set_type servers type)
]

-- An empty value resets the name only; "1", which is `true` as a string, gives no name.
unfoldable pub store_replica_set : Servers → Bytes → Outcome
store_replica_set servers [] =
    done (set_options servers (record (servers.options) { repl_set_name = none }))
store_replica_set servers (c ∷ cs) =
    if str_eq (c ∷ cs) (codes "1")
    then done (
        set_options servers
          (record (servers.options) { repl_set_name = none; con_type = ConType.replset }))
    else done (record {
      server = map (set_repl_set_name (c ∷ cs)) servers.server;
      options = record (servers.options) {
        repl_set_name = some (c ∷ cs);
        con_type = ConType.replset;
      };
      read_pref = servers.read_pref;
    })

unfoldable pub store_gssapi_service_name : Servers → Bytes → Outcome
store_gssapi_service_name servers value =
    done (set_options servers (record (servers.options) { gssapi_service_name = some value }))

unfoldable pub store_acceptable_latency : Servers → Bytes → Outcome
store_acceptable_latency servers value = done (
    set_options servers (record (servers.options) { secondary_acceptable_latency_ms = atoi value }))

-- read_pref.type != MONGO_RP_PRIMARY || read_pref.tagset_count
abbrev pub has_preference : ReadPreference → Bool
has_preference rp = elim rp.type [
  | RpType.primary ↦ elim rp.tagsets [ [] ↦ false | _ ∷ _ ↦ true ]
  | _ ↦ true
]

unfoldable pub store_slave_okay : Servers → Bytes → Outcome
store_slave_okay servers value =
    if is_yes value
    then if has_preference servers.read_pref
      then logic_error servers (
          codes
            "You can not use both slaveOkay and read-preferences. Please switch to read-preferences.")
      else discouraged (set_type servers RpType.secondary_preferred)
    else discouraged servers

unfoldable pub store_socket_timeout : Servers → Bytes → Outcome
store_socket_timeout servers value =
    done (set_options servers (record (servers.options) { socket_timeout_ms = atoi value }))

abbrev pub set_ssl : Servers → ℕ → Outcome
set_ssl servers value = done (set_options servers (record (servers.options) { ssl = value }))

unfoldable pub store_ssl : Servers → Bytes → Outcome
store_ssl servers value =
    if is_yes value
    then set_ssl servers 1
    else if str_case_eq value (codes "false") || str_eq value (codes "0")
    then set_ssl servers 0
    else if str_case_eq value (codes "prefer") || eqb_ℤ (atoi value) (pos 2)
    then logic_error servers (codes "SSL=prefer is currently not supported by mongod")
    else logic_error servers (codes "SSL can only be 'true' or 'false'")

unfoldable pub store_timeout : Servers → Bytes → Outcome
store_timeout servers value =
    discouraged (set_options servers (record (servers.options) { connect_timeout_ms = atoi value }))

-- "admin" is the default database, and then the default authentication database.
unfoldable pub set_username : Bytes → ServerDef → ServerDef
set_username value def = elim def.db [
  | none ↦ record def {
    username = some value;
    db = some (codes "admin");
    authdb = elim def.authdb [ none ↦ some (codes "admin") | some authdb ↦ some authdb ];
  }
  | some _ ↦ record def { username = some value }
]

unfoldable pub store_username : Servers → Bytes → Outcome
store_username servers value = done (set_servers servers (map (set_username value) servers.server))

-- A value that `strtol` reads to its end is a number, which is then converted to an `int`.
unfoldable pub store_w : Servers → Bytes → Outcome
store_w servers value = elim (strtol value).1 [
  | [] ↦
      if ltb_ℤ (to_int (strtol value).0) (pos 0)
      then logic_error (set_w servers (to_int (strtol value).0) none)
          (codes "The value of 'w' needs to be 0 or higher (or a string).")
      else done (set_w servers (to_int (strtol value).0) none)
  | _ ∷ _ ↦ done (set_w servers (negsuc 0) (some value))
]

unfoldable pub store_wtimeout : Servers → Bytes → Outcome
store_wtimeout servers value =
    done (set_options servers (record (servers.options) { default_wtimeout = atoi value }))

-- return 2, with the first 255 bytes of the message
unfoldable pub unknown_option : Servers → Bytes → Bytes → Outcome
unknown_option servers name value = record {
  servers = servers;
  retval = pos 2;
  error_message = some (
      take 255 (
        codes "- Found unknown connection string option '"
        ++ (name ++ (codes "' with value '" ++ (value ++ codes "'")))));
}
