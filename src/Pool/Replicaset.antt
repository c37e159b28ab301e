-- ===== src/Pool/Replicaset.antt =====
-- `mongo_get_read_write_connection_replicaset`: a connection to each seed, the discovery, and the
-- selection. The flags are those for a write, for no new connections, and for no filter.
use mongo_hhvm_driver.Base.{ℕ, ◌+◌, Bool, ◌&&◌, none, some, List, [], ◌∷◌, if◌then◌else◌, ◌==◌}
use mongo_hhvm_driver.CLib.{codes}
use mongo_hhvm_driver.Types.{Connection, ServerDef, ServerOptions, Servers}
use mongo_hhvm_driver.Connection.Effect.{Attempt}
use mongo_hhvm_driver.ReadPreference.Sort.{Qsort}
use mongo_hhvm_driver.ReadPreference.Select.{Selection, read_pref_for, select_connection}
use mongo_hhvm_driver.Pool.Effect.{Setup, Act, ◌>>=◌, return, lift, get_manager, registered}
use mongo_hhvm_driver.Pool.Forget.{forget_others}
use mongo_hhvm_driver.Pool.Single.{get_connection_single}
use mongo_hhvm_driver.Pool.Topology.{Topology, discover_topology}

-- The flags that the caller sets
pub record Flags : Type 0 where
  pub write : Bool
  pub dont_connect : Bool
  pub dont_filter : Bool

abbrev pub counted : {A : Type 0} → ℕ → Attempt A → ℕ
counted n (Attempt.done a) = n + 1
counted n (Attempt.failed e) = n

abbrev pub result_of : Selection → Attempt Connection
result_of (Selection.chosen con) = Attempt.done con
result_of Selection.no_candidates = Attempt.failed (some (codes "No candidate servers found"))

module _ {W : Type 0} (setup : Setup W) (qsort : Qsort Connection) (rand : ℕ) where
  -- How many of the seeds have a connection
  unfoldable pub connect_seeds : ServerOptions → Bool → List ServerDef → ℕ → Act W ℕ
  unfolding get_connection_single
  connect_seeds options dont_connect [] n = return n
  connect_seeds options dont_connect (server ∷ servers) n =
      get_connection_single setup options server dont_connect >>= λ con.
      connect_seeds options dont_connect servers (counted n con)

  abbrev pub select_known : Flags → Topology → Act W (Attempt Connection × Servers)
  select_known flags t = do
    manager ← get_manager
    connections ← lift (registered manager)
    forgot ←
        forget_others setup (read_pref_for flags.write flags.dont_filter t.servers.read_pref)
          connections
    selection ← lift (
        select_connection setup.md5 setup.pid qsort rand connections t.servers flags.write
          flags.dont_filter)
    return (result_of selection, t.servers)

  abbrev pub select_supported : Flags → Topology → Act W (Attempt Connection × Servers)
  select_supported flags t =
      if t.supported
      then select_known flags t
      else return (
        Attempt.failed (
            some (
              codes
                "Incompatible server detected. This driver release is not compatible with one of the connected servers")),
        t.servers,
      )

  -- mongo_get_read_write_connection_replicaset: the connection, and the servers as they are then;
  -- `rand` is the number that the choice draws.
  unfoldable pub get_read_write_connection_replicaset :
      Servers → Flags → Act W (Attempt Connection × Servers)
  unfolding connect_seeds discover_topology select_connection forget_others
  get_read_write_connection_replicaset servers flags = do
    found ← connect_seeds servers.options flags.dont_connect servers.server 0
    let rest = discover_topology setup servers >>= select_supported flags
    if found == 0 && flags.dont_connect then return (Attempt.failed none, servers) else rest
