-- ===== src/Manager/Invariant.antt =====
-- The invariant of the registry: no hash stands twice, each connection has the hash of its item, and
-- it is known which items have a pointer to a connection that was freed.
use mongo_hhvm_driver.Base.{ℕ, none, some, List, [], ◌∷◌, ◌≡◌, refl, ◌∙◌, Bool-cases, inl, inr}
use mongo_hhvm_driver.CLib.{Bytes, str_eq, str_eq_iff, str_eq_refl}
use mongo_hhvm_driver.Types.{Connection}
use mongo_hhvm_driver.Manager.Registry.{
  Item, Manager, find_by_hash, register, deregister, connection_find_by_hash, connection_register,
  connection_deregister, blacklist_find_by_hash, blacklist_register, blacklist_deregister,
}
use mongo_hhvm_driver.Manager.Laws.{
  IsDistinct, find-register, register-IsDistinct, find-deregister, deregister-IsDistinct,
}

abbrev pub IsLabelled : List (Item Connection) → Type 0
IsLabelled [] = Unit
IsLabelled (item ∷ items) = (item.item_data.hash ≡ item.hash) × IsLabelled items

-- A registry in which the items with the hashes `gone` lead to a connection that was freed. Such a
-- connection is here as it was.
pub record IsRegistry (gone : List Bytes) (manager : Manager) : Type 0 where
  pub distinct : IsDistinct manager.connections
  pub labelled : IsLabelled manager.connections
  pub distinct_blacklist : IsDistinct manager.blacklist
  pub left_behind : manager.dangling ≡ gone

pub find-IsLabelled :
    (items : List (Item Connection)) (hash : Bytes) (con : Connection)
    → IsLabelled items
    → find_by_hash items hash ≡ some con
    → con.hash ≡ hash
unfolding find_by_hash
find-IsLabelled [] hash con l h = cc
find-IsLabelled (item ∷ items) hash con l h = elim (Bool-cases (str_eq item.hash hash)) [
  | inl same ↦ let found = rw same at h in let named = (str_eq_iff item.hash hash).0 same in cc
  | inr other ↦ find-IsLabelled items hash con l.1 (rw other at h)
]

register-IsLabelled :
    (items : List (Item Connection)) (con : Connection)
    → IsLabelled items
    → IsLabelled (register items con con.hash)
unfolding register
register-IsLabelled [] con l = (refl, tt)
register-IsLabelled (item ∷ items) con l = (l.0, register-IsLabelled items con l.1)

deregister-IsLabelled :
    (items : List (Item Connection)) (hash : Bytes)
    → IsLabelled items
    → IsLabelled (deregister items hash).0
unfolding deregister
deregister-IsLabelled [] hash l = tt
deregister-IsLabelled (item ∷ items) hash l = elim (Bool-cases (str_eq item.hash hash)) [
  | inl same ↦ rw same l.1
  | inr other ↦ rw other (l.0, deregister-IsLabelled items hash l.1)
]

-- A connection whose hash is new is registered, and then it is found.
pub connection_register-IsRegistry :
    {gone : List Bytes} (manager : Manager) (con : Connection)
    → (IsRegistry gone) manager
    → connection_find_by_hash manager con.hash ≡ none
    → (IsRegistry gone) (connection_register manager con)
      × (connection_find_by_hash (connection_register manager con) con.hash ≡ some con)
unfolding connection_register connection_find_by_hash
connection_register-IsRegistry manager con r unknown = (
  record {
    distinct = register-IsDistinct manager.connections con con.hash unknown r.distinct;
    labelled = register-IsLabelled manager.connections con r.labelled;
    distinct_blacklist = r.distinct_blacklist;
    left_behind = r.left_behind;
  },
  find-register manager.connections con con.hash con.hash
      ∙ rw unknown (rw (str_eq_refl con.hash) refl),
)

pub connection_deregister-IsRegistry :
    {gone : List Bytes} (manager : Manager) (con : Connection)
    → (IsRegistry gone) manager
    → (IsRegistry gone) (connection_deregister manager con).0
unfolding connection_deregister
connection_deregister-IsRegistry manager con r = record {
  distinct = (deregister-IsDistinct manager.connections con.hash r.distinct).1;
  labelled = deregister-IsLabelled manager.connections con.hash r.labelled;
  distinct_blacklist = r.distinct_blacklist;
  left_behind = r.left_behind;
}

pub blacklist_deregister-IsRegistry :
    {gone : List Bytes} (manager : Manager) (hash : Bytes)
    → (IsRegistry gone) manager
    → (IsRegistry gone) (blacklist_deregister manager hash).0
      × (blacklist_find_by_hash (blacklist_deregister manager hash).0 hash ≡ none)
unfolding blacklist_deregister blacklist_find_by_hash
blacklist_deregister-IsRegistry manager hash r = (
  record {
    distinct = r.distinct;
    labelled = r.labelled;
    distinct_blacklist = (deregister-IsDistinct manager.blacklist hash r.distinct_blacklist).1;
    left_behind = r.left_behind;
  },
  find-deregister manager.blacklist hash hash r.distinct_blacklist ∙ rw (str_eq_refl hash) refl,
)

pub blacklist_register-IsRegistry :
    {gone : List Bytes} (manager : Manager) (now : ℕ) (con : Connection)
    → (IsRegistry gone) manager
    → blacklist_find_by_hash manager con.hash ≡ none
    → (IsRegistry gone) (blacklist_register manager now con)
unfolding blacklist_register blacklist_find_by_hash
blacklist_register-IsRegistry manager now con r unlisted = record {
  distinct = r.distinct;
  labelled = r.labelled;
  distinct_blacklist =
      register-IsDistinct manager.blacklist (record { last_ping = now }) con.hash unlisted
        r.distinct_blacklist;
  left_behind = r.left_behind;
}
