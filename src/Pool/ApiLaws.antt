-- ===== src/Pool/ApiLaws.antt =====
-- What `mongo_get_read_write_connection` leaves in the registry, for every type of connection.
use mongo_hhvm_driver.Base.{List}
use mongo_hhvm_driver.CLib.{Bytes}
use mongo_hhvm_driver.Types.{ConType}
use mongo_hhvm_driver.Manager.Registry.{Manager}
use mongo_hhvm_driver.Manager.Invariant.{IsRegistry}
use mongo_hhvm_driver.Pool.Effect.{Pool}
use mongo_hhvm_driver.Pool.Triple.{Triple}
use mongo_hhvm_driver.Pool.MultipleLaws.{Weak}

-- What a call leaves in the registry
abbrev pub Leaves : List Bytes → ConType → Manager → Type 0
Leaves gone ConType.standalone = Weak
Leaves gone ConType.replset = IsRegistry gone
Leaves gone ConType.multiple = Weak
Leaves gone ConType.unknown = IsRegistry gone
