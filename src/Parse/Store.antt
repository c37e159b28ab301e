-- ===== src/Parse/Store.antt =====
-- `mongo_store_option`: the comparisons of the name, in the order of the code.
use mongo_hhvm_driver.Base.{if◌then◌else◌}
use mongo_hhvm_driver.CLib.{Bytes, codes, str_case_eq}
use mongo_hhvm_driver.Types.{Servers}
use mongo_hhvm_driver.Parse.Outcome.{Outcome}
use mongo_hhvm_driver.Parse.Tags.{parse_read_preference_tags}
use mongo_hhvm_driver.Parse.Options.{
  store_auth_mechanism, store_auth_source, store_connect_timeout, store_db, store_fsync,
  store_journal, store_password, store_read_preference, store_replica_set,
  store_gssapi_service_name, store_acceptable_latency, store_slave_okay, store_socket_timeout,
  store_ssl, store_timeout, store_username, store_w, store_wtimeout, unknown_option,
}

unfoldable pub store_option : Servers → Bytes → Bytes → Outcome
store_option servers name value =
    if str_case_eq name (codes "authMechanism")
    then store_auth_mechanism servers value
    else if str_case_eq name (codes "authSource")
    then store_auth_source servers value
    else if str_case_eq name (codes "connectTimeoutMS")
    then store_connect_timeout servers value
    else if str_case_eq name (codes "db")
    then store_db servers value
    else if str_case_eq name (codes "fsync")
    then store_fsync servers value
    else if str_case_eq name (codes "journal")
    then store_journal servers value
    else if str_case_eq name (codes "password")
    then store_password servers value
    else if str_case_eq name (codes "readPreference")
    then store_read_preference servers value
    else if str_case_eq name (codes "readPreferenceTags")
    then parse_read_preference_tags servers value
    else if str_case_eq name (codes "replicaSet")
    then store_replica_set servers value
    else if str_case_eq name (codes "gssapiServiceName")
    then store_gssapi_service_name servers value
    else if str_case_eq name (codes "secondaryAcceptableLatencyMS")
    then store_acceptable_latency servers value
    else if str_case_eq name (codes "slaveOkay")
    then store_slave_okay servers value
    else if str_case_eq name (codes "socketTimeoutMS")
    then store_socket_timeout servers value
    else if str_case_eq name (codes "ssl")
    then store_ssl servers value
    else if str_case_eq name (codes "timeout")
    then store_timeout servers value
    else if str_case_eq name (codes "username")
    then store_username servers value
    else if str_case_eq name (codes "w")
    then store_w servers value
    else if str_case_eq name (codes "wTimeout")
    then store_wtimeout servers value
    else if str_case_eq name (codes "wTimeoutMS")
    then store_wtimeout servers value
    else unknown_option servers name value
