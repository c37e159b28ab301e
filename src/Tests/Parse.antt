-- ===== src/Tests/Parse.antt =====
-- The connection string parser at mongodb://app:pw@db1:27017,db2:27018/shop with two options.
use mongo_hhvm_driver.Base.{
  true, none, some, [], ◌∷◌, ◌≡◌, refl, arith, if◌then◌else◌, replicate, inl,
}
use mongo_hhvm_driver.Base.Int.{pos, ltb_ℤ}
use mongo_hhvm_driver.CLib.{codes, str_case_eq, print_nat}
use mongo_hhvm_driver.Types.{Servers}
use mongo_hhvm_driver.Parse.Outcome.{done, parse_init, set_servers}
use mongo_hhvm_driver.Parse.Tags.{parse_read_preference_tags, add_read_tags}
use mongo_hhvm_driver.Parse.TagString.{Tag, parse_tags-print_tags}
use mongo_hhvm_driver.Parse.Options.{unknown_option}
use mongo_hhvm_driver.Parse.Store.{store_option}
use mongo_hhvm_driver.Parse.Keeps.{less_concern, OneConcern}
use mongo_hhvm_driver.Parse.KeepsAll.{store_option-restored, store_option-OneConcern}
use mongo_hhvm_driver.Parse.OptionString.{parse_options}
use mongo_hhvm_driver.Parse.OptionList.{Setting, store_all, parse_options-print_settings}
use mongo_hhvm_driver.Parse.Hosts.{parse_hosts}
use mongo_hhvm_driver.Parse.HostList.{Host, parsed_host, print_hosts, hosts_end}
use mongo_hhvm_driver.Parse.SpecString.{parse_hosts-print_hosts, parse_hosts_overflow}
use mongo_hhvm_driver.Parse.Spec.{parse_server_spec}
use mongo_hhvm_driver.Parse.Login.{Login, with_hosts, settle_all, parse_server_spec-print_settings}

abbrev login : Login
login = record {
  user = codes "app";
  pass = codes "pw";
  db = codes "shop";
  user_colon = omega arith;
  user_at = omega arith;
  pass_at = omega arith;
  db_question = omega arith;
  db_named = omega arith;
}

abbrev db1 : Host
db1 = record {
  host = codes "db1";
  port = 27017;
  no_colon = omega arith;
  no_comma = omega arith;
  no_slash = omega arith;
  port_range = omega arith;
}

abbrev db2 : Host
db2 = record {
  host = codes "db2";
  port = 27018;
  no_colon = omega arith;
  no_comma = omega arith;
  no_slash = omega arith;
  port_range = omega arith;
}

abbrev replica_set : Setting
replica_set = record {
  name = codes "replicaSet";
  value = codes "rs0";
  named = omega arith;
  name_plain = omega arith;
  value_plain = omega arith;
}

abbrev username : Setting
username = record {
  name = codes "username";
  value = codes "other";
  named = omega arith;
  name_plain = omega arith;
  value_plain = omega arith;
}

parse_server_spec-print_settings_example :
    parse_server_spec parse_init
      (codes "mongodb://app:pw@db1:27017,db2:27018/shop?replicaSet=rs0&username=other")
    ≡ some (
        if ltb_ℤ
          (pos 0)
          (store_all (with_hosts parse_init db1 (db2 ∷ [])) replica_set (username ∷ [])).retval
        then store_all (with_hosts parse_init db1 (db2 ∷ [])) replica_set (username ∷ [])
        else done (
            settle_all login
              (store_all
                (with_hosts parse_init db1 (db2 ∷ []))
                replica_set
                (username ∷ [])).servers))
unfolding print_nat
parse_server_spec-print_settings_example =
    parse_server_spec-print_settings login parse_init db1 (db2 ∷ []) replica_set (username ∷ [])
      (omega arith)

parse_options-print_settings_example :
    parse_options parse_init (codes "replicaSet=rs0&username=other")
    ≡ some (store_all parse_init replica_set (username ∷ []))
parse_options-print_settings_example =
    parse_options-print_settings parse_init replica_set (username ∷ [])

parse_hosts-print_hosts_example :
    parse_hosts parse_init (codes "db1:27017,db2:27018/shop")
    ≡ some (
        hosts_end (codes "/shop") (set_servers parse_init (parsed_host db1 ∷ parsed_host db2 ∷ [])))
unfolding print_nat
parse_hosts-print_hosts_example =
    parse_hosts-print_hosts parse_init db1 (db2 ∷ []) (codes "/shop") refl (omega arith)

parse_hosts_overflow_example : parse_hosts parse_init (print_hosts db1 (replicate 16 db2) []) ≡ none
parse_hosts_overflow_example =
    parse_hosts_overflow parse_init db1 (replicate 16 db2) [] tt (omega arith)

abbrev dc : Tag
dc = record {
  name = codes "dc";
  value = codes "ny";
  name_colon = omega arith;
  name_comma = omega arith;
  value_comma = omega arith;
}

abbrev rack : Tag
rack = record {
  name = codes "rack";
  value = codes "1";
  name_colon = omega arith;
  name_comma = omega arith;
  value_comma = omega arith;
}

parse_tags-print_tags_example :
    parse_read_preference_tags parse_init (codes "dc:ny,rack:1")
    ≡ add_read_tags parse_init (codes "dc:ny" ∷ codes "rack:1" ∷ [])
parse_tags-print_tags_example = parse_tags-print_tags parse_init dc (rack ∷ [])

abbrev two_hosts : Servers
two_hosts = with_hosts parse_init db1 (db2 ∷ [])

rejects_unknown : ltb_ℤ (pos 0) (store_option two_hosts (codes "x") (codes "1")).retval ≡ true
unfolding store_option str_case_eq unknown_option
rejects_unknown = refl

store_option-restored_example :
    less_concern (store_option two_hosts (codes "x") (codes "1")).servers ≡ less_concern two_hosts
store_option-restored_example =
    store_option-restored two_hosts (codes "x") (codes "1") rejects_unknown

store_option-OneConcern_example :
    OneConcern (store_option two_hosts (codes "w") (codes "majority")).servers.options
store_option-OneConcern_example =
    store_option-OneConcern two_hosts (codes "w") (codes "majority") (inl refl)
