-- ===== src/Manager/Registry.antt =====
-- The registry: items with a hash, in the order of their registration. The lists are linked in the
-- code; an item's data is the object that its pointer leads to. Freeing and logging are left out.
use mongo_hhvm_driver.Base.{
  ℕ, Bool, true, false, Option, none, some, List, [], ◌∷◌, ◌++◌, if◌then◌else◌, ◌==◌,
}
use mongo_hhvm_driver.CLib.{Bytes, str_eq}
use mongo_hhvm_driver.Types.{Callback, Connection, ServerDef}
use mongo_hhvm_driver.Hash.Create.{Md5, create_hash}

-- mongo_con_manager_item
pub record Item {ℓ} (A : Type ℓ) : Type ℓ where
  pub hash : Bytes
  pub item_data : A

-- mongo_connection_blacklist
pub record Blacklisted : Type 0 where
  pub last_ping : ℕ

-- The part of mongo_con_manager that changes. The last field has the hashes of the items whose
-- connection was destroyed and freed while the item stayed: their pointer dangles.
pub record Manager : Type 0 where
  pub connections : List (Item Connection)
  pub blacklist : List (Item Blacklisted)
  pub dangling : List Bytes

module _ {ℓ} {A : Type ℓ} where
  -- mongo_manager_find_by_hash
  unfoldable pub find_by_hash : List (Item A) → Bytes → Option A
  find_by_hash [] hash = none
  find_by_hash (item ∷ items) hash =
      let later = find_by_hash items hash in
      if str_eq item.hash hash then some item.item_data else later

  -- mongo_manager_register
  unfoldable pub register : List (Item A) → A → Bytes → List (Item A)
  register items con hash = items ++ (record { hash = hash; item_data = con } ∷ [])

  -- mongo_manager_deregister: the list that is left, and whether there was an item
  unfoldable pub deregister : List (Item A) → Bytes → List (Item A) × Bool
  deregister [] hash = ([], false)
  deregister (item ∷ items) hash =
      let (left, found) = deregister items hash in
      if str_eq item.hash hash then (items, true) else (item ∷ left, found)

-- mongo_manager_connection_find_by_hash
unfoldable pub connection_find_by_hash : Manager → Bytes → Option Connection
unfolding find_by_hash
connection_find_by_hash manager hash = find_by_hash manager.connections hash

-- mongo_manager_connection_find_by_server_definition
unfoldable pub connection_find_by_server_definition :
    Md5 → ℕ → Manager → ServerDef → Option Connection
unfolding find_by_hash
connection_find_by_server_definition md5 pid manager definition =
    find_by_hash manager.connections (create_hash md5 pid definition)

-- mongo_manager_connection_register
unfoldable pub connection_register : Manager → Connection → Manager
unfolding register
connection_register manager con = record manager {
  connections = register manager.connections con con.hash;
}

-- mongo_manager_connection_deregister; the connection is destroyed if it was there.
unfoldable pub connection_deregister : Manager → Connection → Manager × Bool
unfolding deregister
connection_deregister manager con =
    let (left, found) = deregister manager.connections con.hash in
    (record manager { connections = left }, found)

-- mongo_manager_blacklist_find_by_hash
unfoldable pub blacklist_find_by_hash : Manager → Bytes → Option Blacklisted
unfolding find_by_hash
blacklist_find_by_hash manager hash = find_by_hash manager.blacklist hash

-- mongo_manager_blacklist_register, at the time `now` in seconds
unfoldable pub blacklist_register : Manager → ℕ → Connection → Manager
unfolding register
blacklist_register manager now con = record manager {
  blacklist = register manager.blacklist (record { last_ping = now }) con.hash;
}

-- mongo_manager_blacklist_deregister
unfoldable pub blacklist_deregister : Manager → Bytes → Manager × Bool
unfolding deregister
blacklist_deregister manager hash =
    let (left, found) = deregister manager.blacklist hash in
    (record manager { blacklist = left }, found)

-- mongo_manager_add_connection_callback
unfoldable pub add_connection_callback : Connection → Callback → Connection
add_connection_callback con callback = record con {
  cleanup_list = con.cleanup_list ++ (callback ∷ []);
}

unfoldable pub drop_callback : List Callback → ℕ → List Callback
drop_callback [] cursor = []
drop_callback (callback ∷ callbacks) cursor =
    let left = drop_callback callbacks cursor in
    if callback.callback_data == cursor then callbacks else callback ∷ left

-- mongo_deregister_callback_from_connection: the first callback with this data is removed.
unfoldable pub deregister_callback : Connection → ℕ → Connection
unfolding drop_callback
deregister_callback con cursor = record con { cleanup_list = drop_callback con.cleanup_list cursor }
