-- ===== src/Pool/Api.antt =====
-- `mongo_get_read_write_connection`.
use mongo_hhvm_driver.Base.{ℕ, some}
use mongo_hhvm_driver.CLib.{codes}
use mongo_hhvm_driver.Types.{ConType, Connection, Servers}
use mongo_hhvm_driver.Connection.Effect.{Attempt}
use mongo_hhvm_driver.ReadPreference.Sort.{Qsort}
use mongo_hhvm_driver.Pool.Effect.{Setup, Act, ◌>>=◌, return}
use mongo_hhvm_driver.Pool.Replicaset.{Flags, get_read_write_connection_replicaset}
use mongo_hhvm_driver.Pool.Multiple.{get_connection_multiple}

module _ {W : Type 0} (setup : Setup W) (qsort : Qsort Connection) (rand : ℕ) where
  abbrev pub with_servers : Servers → Attempt Connection → Act W (Attempt Connection × Servers)
  with_servers servers result = return (result, servers)

  abbrev pub of_type : Servers → Flags → ConType → Act W (Attempt Connection × Servers)
  of_type servers flags ConType.standalone =
      get_connection_multiple setup qsort rand servers flags >>= with_servers servers
  of_type servers flags ConType.replset =
      get_read_write_connection_replicaset setup qsort rand servers flags
  of_type servers flags ConType.multiple =
      get_connection_multiple setup qsort rand servers flags >>= with_servers servers
  of_type servers flags ConType.unknown = return (
    Attempt.failed
        (some (codes "mongo_get_read_write_connection: Unknown connection type requested")),
    servers,
  )

  -- mongo_get_read_write_connection, for a manager and servers that are not NULL
  unfoldable pub get_read_write_connection : Servers → Flags → Act W (Attempt Connection × Servers)
  unfolding get_connection_multiple get_read_write_connection_replicaset
  get_read_write_connection servers flags = of_type servers flags servers.options.con_type
