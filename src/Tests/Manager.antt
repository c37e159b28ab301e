-- ===== src/Tests/Manager.antt =====
-- The registry with one connection and one more.
use mongo_hhvm_driver.Base.{List, ◌↔◌, true, none, [], ◌∷◌, ◌≡◌, refl, arith, if◌then◌else◌}
use mongo_hhvm_driver.Base.Int.{pos}
use mongo_hhvm_driver.CLib.{codes, str_eq}
use mongo_hhvm_driver.Types.{NodeType, Connection}
use mongo_hhvm_driver.Manager.Registry.{Item, find_by_hash, deregister}
use mongo_hhvm_driver.Manager.Laws.{IsDistinct, find-deregister}
use mongo_hhvm_driver.Manager.Wire.{supports_wire_version, IsShared, supports_wire_version_iff}
use mongo_hhvm_driver.Tests.Data.{server_at}

abbrev first_con : Connection
first_con = server_at NodeType.primary 5 (codes "db1:27017;-;.;4711")

abbrev second_con : Connection
second_con = server_at NodeType.secondary 7 (codes "db2:27017;-;.;4711")

abbrev items : List (Item Connection)
items = record { hash = first_con.hash; item_data = first_con } ∷ []

second_is_new : find_by_hash items second_con.hash ≡ none
unfolding find_by_hash str_eq
second_is_new = refl

items-IsDistinct : IsDistinct items
unfolding find_by_hash
items-IsDistinct = (refl, tt)

find-deregister_example :
    find_by_hash (deregister items first_con.hash).0 second_con.hash
    ≡ (if str_eq first_con.hash second_con.hash then none else find_by_hash items second_con.hash)
find-deregister_example = find-deregister items first_con.hash second_con.hash items-IsDistinct

supports_wire_version_iff_example :
    ((supports_wire_version (pos 2) (pos 5)).supported ≡ true) ↔ IsShared (pos 2) (pos 5)
supports_wire_version_iff_example = supports_wire_version_iff (pos 2) (pos 5) (omega arith)
