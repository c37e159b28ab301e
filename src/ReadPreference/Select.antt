-- ===== src/ReadPreference/Select.antt =====
-- The second half of `mongo_get_read_write_connection_replicaset` in src/mcon/manager.c: the read
-- preference that the flags ask for, the candidates, and the choice among them.
use mongo_hhvm_driver.Base.{◌>>=◌, ℕ, Bool, Option, none, some, List, [], ◌∷◌, if◌then◌else◌}
use mongo_hhvm_driver.Types.{RpType, Connection, ReadPreference, Servers}
use mongo_hhvm_driver.Hash.Create.{Md5}
use mongo_hhvm_driver.ReadPreference.Sort.{Qsort}
use mongo_hhvm_driver.ReadPreference.Find.{find_candidate_servers}
use mongo_hhvm_driver.ReadPreference.Pick.{choose_server}

-- The connection, or NULL with the message "No candidate servers found".
pub data Selection : Type 0 where
  chosen : Connection → Selection
  no_candidates : Selection

abbrev pub all_of : RpType → ReadPreference
all_of type = record { type = type; tagsets = [] }

-- A write looks for primaries, and without a filter every server will do.
abbrev pub read_pref_for : Bool → Bool → ReadPreference → ReadPreference
read_pref_for write dont_filter rp =
    if write then all_of RpType.primary else if dont_filter then all_of RpType.any else rp

abbrev pub choose_among :
    Qsort Connection → ℕ → Servers → Option (List Connection) → Option Selection
choose_among qsort rand servers none = some no_candidates
choose_among qsort rand servers (some []) = some no_candidates
choose_among qsort rand servers (some (con ∷ col)) =
    choose_server qsort rand (con ∷ col) servers.options.secondary_acceptable_latency_ms
      servers.read_pref.type
    >>= λ best. some (chosen best)

unfoldable pub select_connection :
    Md5 → ℕ → Qsort Connection → ℕ → List Connection → Servers → Bool → Bool → Option Selection
select_connection md5 pid qsort rand connections servers write dont_filter = do
  candidates ←
      find_candidate_servers md5 pid connections (read_pref_for write dont_filter servers.read_pref)
        servers
  choose_among qsort rand servers candidates
