-- ===== src/Parse/Spec.antt =====
-- `mongo_parse_server_spec`: user name and password, hosts, database and options.
use mongo_hhvm_driver.Base.{
  ◌>>=◌, ◌-◌, Option, none, some, [], ◌∷◌, map, ◌==◌, ltb, if◌then◌else◌, length, take, drop,
}
use mongo_hhvm_driver.Base.Int.{pos, ltb_ℤ}
use mongo_hhvm_driver.CLib.{Bytes, codes, starts_with, split_at}
use mongo_hhvm_driver.Types.{ConType, ServerDef, Servers}
use mongo_hhvm_driver.Parse.Outcome.{Outcome, done, set_servers, set_options}
use mongo_hhvm_driver.Parse.OptionString.{parse_options}
use mongo_hhvm_driver.Parse.Hosts.{parse_hosts}

-- The user name and the password, and the string from the first host on.
pub record Userinfo : Type 0 where
  pub user : Option Bytes
  pub pass : Option Bytes
  pub rest : Bytes

abbrev pub no_user : Bytes → Userinfo
no_user s = record { user = none; pass = none; rest = s }

-- The first `@` and the first `:`, which count if the colon stands before the `@`.
abbrev pub user_before : Bytes → Option (Bytes × Bytes) → Option (Bytes × Bytes) → Userinfo
user_before s none colon = no_user s
user_before s (some at) none = no_user s
user_before s (some (before_at, rest)) (some (user, after_colon)) =
    if ltb (length user) (length before_at)
    then record {
      user = some user;
      pass = some (take (length before_at - length user - 1) after_colon);
      rest = rest;
    }
    else no_user s

unfoldable pub parse_userinfo : Bytes → Userinfo
parse_userinfo spec =
    let s = drop 10 spec in
    if starts_with spec (codes "mongodb://")
    then user_before s (split_at b'@' s) (split_at b':' s)
    else no_user spec

-- What stands behind the hosts: the database, empty if there is none, and the options.
pub record Location : Type 0 where
  pub db : Bytes
  pub options : Option Bytes

abbrev pub location_of : Bytes → Option (Bytes × Bytes) → Location
location_of after none = record { db = after; options = none }
location_of after (some (db, options)) = record { db = db; options = some options }

unfoldable pub parse_location : Bytes → Location
parse_location [] = record { db = []; options = none }
parse_location (c ∷ after) =
    if c == b'/'
    then location_of after (split_at b'?' after)
    else record { db = []; options = none }

abbrev pub parse_location_options : Servers → Option Bytes → Option Outcome
parse_location_options servers none = some (done servers)
parse_location_options servers (some options) = parse_options servers options

-- The database, or "admin" for a user without one.
abbrev pub database_of : Bytes → Userinfo → Option Bytes
database_of (c ∷ cs) info = some (c ∷ cs)
database_of [] info = info.user >>= λ user. info.pass >>= λ pass. some (codes "admin")

abbrev pub log_in : Userinfo → Option Bytes → ServerDef → ServerDef
log_in info db def = record def { username = info.user; password = info.pass; db = db }

abbrev pub log_all_in : Userinfo → Option Bytes → Servers → Servers
log_all_in info db servers = set_servers servers (map (log_in info db) servers.server)

abbrev pub set_con_type : Servers → Servers
set_con_type servers = set_options servers (record (servers.options) {
  con_type = if length servers.server == 1 then ConType.standalone else ConType.multiple;
})

abbrev pub finish_spec : Userinfo → Bytes → Outcome → Outcome
finish_spec info db outcome =
    if ltb_ℤ (pos 0) outcome.retval
    then outcome
    else done (log_all_in info (database_of db info) outcome.servers)

-- mongo_parse_server_spec
unfoldable pub parse_server_spec : Servers → Bytes → Option Outcome
unfolding parse_userinfo parse_location
parse_server_spec servers spec = do
  let info = parse_userinfo spec
  hosts ← parse_hosts servers info.rest
  let location = parse_location hosts.rest
  outcome ← parse_location_options (set_con_type hosts.servers) location.options
  some (finish_spec info location.db outcome)
