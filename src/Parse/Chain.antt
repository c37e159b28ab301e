-- ===== src/Parse/Chain.antt =====
-- What holds of every outcome of an option holds of `mongo_store_option`.
use mongo_hhvm_driver.Base.{Bool, true, false, List, [], ◌∷◌, if◌then◌else◌}
use mongo_hhvm_driver.CLib.{Bytes, codes, str_case_eq}
use mongo_hhvm_driver.Types.{Servers}
use mongo_hhvm_driver.ReadPreference.Sort.{All}
use mongo_hhvm_driver.Parse.Outcome.{Outcome}
use mongo_hhvm_driver.Parse.Tags.{parse_read_preference_tags}
use mongo_hhvm_driver.Parse.Options.{
  store_auth_mechanism, store_auth_source, store_connect_timeout, store_db, store_fsync,
  store_journal, store_password, store_read_preference, store_replica_set,
  store_gssapi_service_name, store_acceptable_latency, store_slave_okay, store_socket_timeout,
  store_ssl, store_timeout, store_username, store_w, store_wtimeout, unknown_option,
}
use mongo_hhvm_driver.Parse.Store.{store_option}

-- The outcomes of the options, in the order of the comparisons, and of an unknown one.
abbrev pub outcomes : Servers → Bytes → Bytes → List Outcome
outcomes servers name value =
    store_auth_mechanism servers value
    ∷ store_auth_source servers value
    ∷ store_connect_timeout servers value
    ∷ store_db servers value
    ∷ store_fsync servers value
    ∷ store_journal servers value
    ∷ store_password servers value
    ∷ store_read_preference servers value
    ∷ parse_read_preference_tags servers value
    ∷ store_replica_set servers value
    ∷ store_gssapi_service_name servers value
    ∷ store_acceptable_latency servers value
    ∷ store_slave_okay servers value
    ∷ store_socket_timeout servers value
    ∷ store_ssl servers value
    ∷ store_timeout servers value
    ∷ store_username servers value
    ∷ store_w servers value
    ∷ store_wtimeout servers value
    ∷ store_wtimeout servers value
    ∷ unknown_option servers name value
    ∷ []

either : (P : Outcome → Type 0) (b : Bool) (x y : Outcome) → P x → P y → P (if b then x else y)
either P true x y h k = h
either P false x y h k = k

pub store_option-All :
    (P : Outcome → Type 0) (servers : Servers) (name value : Bytes)
    → All P (outcomes servers name value)
    → P (store_option servers name value)
unfolding store_option
store_option-All P servers name value
      (
        p0,
        (
          p1,
          (
            p2,
            (
              p3,
              (
                p4,
                (
                  p5,
                  (
                    p6,
                    (
                      p7,
                      (
                        p8,
                        (
                          p9,
                          (
                            p10,
                            (p11, (p12, (p13, (p14, (p15, (p16, (p17, (p18, (p19, (p20, _)))))))))),
                          ),
                        ),
                      ),
                    ),
                  ),
                ),
              ),
            ),
          ),
        ),
      ) =
    either P (str_case_eq name (codes "authMechanism")) _ _ p0 (
      either P (str_case_eq name (codes "authSource")) _ _ p1 (
        either P (str_case_eq name (codes "connectTimeoutMS")) _ _ p2 (
          either P (str_case_eq name (codes "db")) _ _ p3 (
            either P (str_case_eq name (codes "fsync")) _ _ p4 (
              either P (str_case_eq name (codes "journal")) _ _ p5 (
                either P (str_case_eq name (codes "password")) _ _ p6 (
                  either P (str_case_eq name (codes "readPreference")) _ _ p7 (
                    either P (str_case_eq name (codes "readPreferenceTags")) _ _ p8 (
                      either P (str_case_eq name (codes "replicaSet")) _ _ p9 (
                        either P (str_case_eq name (codes "gssapiServiceName")) _ _ p10 (
                          either P (str_case_eq name (codes "secondaryAcceptableLatencyMS")) _ _ p11
                            (either P (str_case_eq name (codes "slaveOkay")) _ _ p12 (
                              either P (str_case_eq name (codes "socketTimeoutMS")) _ _ p13 (
                                either P (str_case_eq name (codes "ssl")) _ _ p14 (
                                  either P (str_case_eq name (codes "timeout")) _ _ p15 (
                                    either P (str_case_eq name (codes "username")) _ _ p16 (
                                      either P (str_case_eq name (codes "w")) _ _ p17 (
                                        either P (str_case_eq name (codes "wTimeout")) _ _ p18 (
                                          either P (str_case_eq name (codes "wTimeoutMS")) _ _ p19
                                            (p20))))))))))))))))))))
