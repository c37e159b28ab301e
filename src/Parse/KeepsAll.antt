-- ===== src/Parse/KeepsAll.antt =====
-- What `mongo_store_option` never changes, and what it leaves if it rejects an option.
use mongo_hhvm_driver.Base.{is_some, true, ◌≡◌, refl}
use mongo_hhvm_driver.Base.Int.{pos, ltb_ℤ}
use mongo_hhvm_driver.CLib.{Bytes}
use mongo_hhvm_driver.Types.{ServerOptions, Servers}
use mongo_hhvm_driver.ReadPreference.Sort.{All}
use mongo_hhvm_driver.Parse.Outcome.{done, set_options}
use mongo_hhvm_driver.Parse.Options.{
  store_auth_source, store_connect_timeout, store_db, store_fsync, store_journal, store_password,
  store_gssapi_service_name, store_acceptable_latency, store_socket_timeout, store_timeout,
  store_username, store_wtimeout, set_db, set_username, set_authdb, set_password,
}
use mongo_hhvm_driver.Parse.Store.{store_option}
use mongo_hhvm_driver.Parse.Chain.{outcomes, store_option-All}
use mongo_hhvm_driver.Parse.Keeps.{
  addresses, set_db-address, set_username-address, OneConcern, less_concern, Keeps, done-Keeps,
  discouraged-Keeps, each-Keeps,
}
use mongo_hhvm_driver.Parse.KeepsEach.{
  parse_tags-Keeps, mechanism-Keeps, read_preference-Keeps, replica_set-Keeps, slave_okay-Keeps,
  ssl-Keeps, w-Keeps, unknown-Keeps,
}

options-Keeps :
    (servers : Servers) (name value : Bytes) → All (Keeps servers) (outcomes servers name value)
unfolding store_auth_source store_connect_timeout store_db store_fsync store_journal store_password
    store_gssapi_service_name store_acceptable_latency store_socket_timeout store_timeout
    store_username store_wtimeout
options-Keeps servers name value =
    let plain : (o : ServerOptions)
        → (OneConcern servers.options → OneConcern o)
        → Keeps servers (done (set_options servers o)) =
      λ o. done-Keeps servers (set_options servers o) refl in
    (
      mechanism-Keeps servers value,
      (
        each-Keeps servers (set_authdb value) (λ def. refl),
        (
          plain _ (λ k. k),
          (
            each-Keeps servers (set_db value) (set_db-address value),
            (
              plain _ (λ k. k),
              (
                plain _ (λ k. k),
                (
                  each-Keeps servers (set_password value) (λ def. refl),
                  (
                    read_preference-Keeps servers value,
                    (
                      parse_tags-Keeps servers value,
                      (
                        replica_set-Keeps servers value,
                        (
                          plain _ (λ k. k),
                          (
                            plain _ (λ k. k),
                            (
                              slave_okay-Keeps servers value,
                              (
                                plain _ (λ k. k),
                                (
                                  ssl-Keeps servers value,
                                  (
                                    discouraged-Keeps servers _ refl (λ k. k),
                                    (
                                      each-Keeps servers (set_username value)
                                          (set_username-address value),
                                      (
                                        w-Keeps servers value,
                                        (
                                          plain _ (λ k. k),
                                          (
                                            plain _ (λ k. k),
                                            (unknown-Keeps servers name value, tt),
                                          ),
                                        ),
                                      ),
                                    ),
                                  ),
                                ),
                              ),
                            ),
                          ),
                        ),
                      ),
                    ),
                  ),
                ),
              ),
            ),
          ),
        ),
      ),
    )

store_option-Keeps :
    (servers : Servers) (name value : Bytes) → Keeps servers (store_option servers name value)
store_option-Keeps servers name value =
    store_option-All (Keeps servers) servers name value (options-Keeps servers name value)

-- No option, known or not, accepted or rejected, changes the host or the port of a server or the
-- number of the servers.
pub store_option-addresses :
    (servers : Servers) (name value : Bytes)
    → addresses (store_option servers name value).servers ≡ addresses servers
store_option-addresses servers name value = (store_option-Keeps servers name value).same_addresses

-- The error message is set exactly when the return value is positive.
pub store_option-reported :
    (servers : Servers) (name value : Bytes)
    → is_some (store_option servers name value).error_message
      ≡ ltb_ℤ (pos 0) (store_option servers name value).retval
store_option-reported servers name value = (store_option-Keeps servers name value).reported

-- An option that is rejected with a positive return value leaves the servers as they were, but for
-- the write concern.
pub store_option-restored :
    (servers : Servers) (name value : Bytes)
    → ltb_ℤ (pos 0) (store_option servers name value).retval ≡ true
    → less_concern (store_option servers name value).servers ≡ less_concern servers
store_option-restored servers name value = (store_option-Keeps servers name value).restored

-- Where the write concern is a number or a name but not both, it stays so under every option.
pub store_option-OneConcern :
    (servers : Servers) (name value : Bytes)
    → OneConcern servers.options
    → OneConcern (store_option servers name value).servers.options
store_option-OneConcern servers name value = (store_option-Keeps servers name value).concern
