-- ===== src/ReadPreference/Pick.antt =====
-- `mongo_select_nearest_servers`, `mongo_pick_server_from_set`, and the three steps that
-- src/mcon/manager.c runs on the candidates: sort, select, pick. `none` is undefined behaviour or
-- the use of a NULL; the number that `rand()` returns is an argument.
use mongo_hhvm_driver.Base.{
  ◌>>=◌, ℕ, ◌-◌, ◌%◌, Bool, Option, none, some, List, [], ◌∷◌, ltb, ◌==◌, if◌then◌else◌, length,
  get_elem?, select,
}
use mongo_hhvm_driver.Base.Int.{ℤ, ◌+ℤ◌, leb_ℤ, to_int}
use mongo_hhvm_driver.Types.{RpType, Connection}
use mongo_hhvm_driver.ReadPreference.Candidates.{is_primary}
use mongo_hhvm_driver.ReadPreference.Sort.{Qsort, sort_servers}

-- con->ping_ms <= nearest_ping + options->secondaryAcceptableLatencyMS, where the sum wraps
abbrev pub is_near : ℤ → ℤ → Connection → Bool
is_near nearest_ping latency con = leb_ℤ con.ping_ms (to_int (nearest_ping +ℤ latency))

-- The case that all known read preferences share: the first element's ping time counts.
unfoldable pub near_first : List Connection → ℤ → Option (List Connection)
near_first [] latency = none
near_first (con ∷ col) latency = some (select (is_near con.ping_ms latency) (con ∷ col))

unfoldable pub select_nearest_servers : List Connection → ℤ → RpType → Option (List Connection)
select_nearest_servers col latency RpType.any = none
select_nearest_servers col latency RpType.other = none
select_nearest_servers col latency _ = near_first col latency

-- col->data[rand() % count]; a remainder by 0 is undefined.
unfoldable pub random_element : ℕ → List Connection → ℕ → Option Connection
random_element rand col count = if count == 0 then none else get_elem? col (rand % count)

unfoldable pub pick_primary_or : ℕ → List Connection → Connection → Option Connection
pick_primary_or rand col first =
    if is_primary first.connection_type then some first else random_element rand col (length col)

unfoldable pub pick_before_primary : ℕ → List Connection → Option Connection
pick_before_primary rand col = do
  last ← get_elem? col (length col - 1)
  random_element rand col (if is_primary last.connection_type then length col - 1 else length col)

unfoldable pub pick_server_from_set : ℕ → List Connection → RpType → Option Connection
unfolding pick_primary_or pick_before_primary random_element
pick_server_from_set rand col RpType.primary_preferred = do
  first ← get_elem? col 0
  pick_primary_or rand col first
pick_server_from_set rand col RpType.secondary_preferred =
    if ltb 1 (length col)
    then pick_before_primary rand col
    else random_element rand col (length col)
pick_server_from_set rand col _ = random_element rand col (length col)

-- What `mongo_get_read_write_connection_replicaset` does with its candidates.
unfoldable pub choose_server :
    Qsort Connection → ℕ → List Connection → ℤ → RpType → Option Connection
choose_server qsort rand col latency rp_type = do
  sorted ← sort_servers qsort col rp_type
  near ← select_nearest_servers sorted latency rp_type
  pick_server_from_set rand near rp_type
