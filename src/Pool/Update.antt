-- ===== src/Pool/Update.antt =====
-- The registry after one of its connections changed.
use mongo_hhvm_driver.Base.{none, some, List, [], ◌∷◌, ◌≡◌, refl, sym, Bool-cases, inl, inr}
use mongo_hhvm_driver.CLib.{Bytes, str_eq, str_eq_iff}
use mongo_hhvm_driver.Types.{Connection}
use mongo_hhvm_driver.Manager.Registry.{Item, Manager, find_by_hash, connection_find_by_hash}
use mongo_hhvm_driver.Manager.Laws.{IsDistinct}
use mongo_hhvm_driver.Manager.Invariant.{IsLabelled, IsRegistry}
use mongo_hhvm_driver.Pool.Effect.{update_item, update_connection}

update_item-none :
    (items : List (Item Connection)) (con : Connection) (wanted : Bytes)
    → find_by_hash items wanted ≡ none
    → find_by_hash (update_item items con.hash con) wanted ≡ none
unfolding find_by_hash update_item
update_item-none [] con wanted h = refl
update_item-none (item ∷ items) con wanted h = elim (Bool-cases (str_eq item.hash wanted)) [
  | inl same ↦ let found = rw same at h in cc
  | inr other ↦ elim (Bool-cases (str_eq item.hash con.hash)) [
    | inl here ↦ rw here (rw other (rw other at h))
    | inr there ↦ rw there (rw other (update_item-none items con wanted (rw other at h)))
  ]
]

update_item-IsDistinct :
    (items : List (Item Connection)) (con : Connection)
    → IsDistinct items
    → IsDistinct (update_item items con.hash con)
unfolding update_item
update_item-IsDistinct [] con d = tt
update_item-IsDistinct (item ∷ items) con d = elim (Bool-cases (str_eq item.hash con.hash)) [
  | inl here ↦ rw here d
  | inr there ↦
      rw there (update_item-none items con item.hash d.0, update_item-IsDistinct items con d.1)
]

update_item-IsLabelled :
    (items : List (Item Connection)) (con : Connection)
    → IsLabelled items
    → IsLabelled (update_item items con.hash con)
unfolding update_item
update_item-IsLabelled [] con l = tt
update_item-IsLabelled (item ∷ items) con l = elim (Bool-cases (str_eq item.hash con.hash)) [
  | inl here ↦ rw here (sym ((str_eq_iff item.hash con.hash).0 here), l.1)
  | inr there ↦ rw there (l.0, update_item-IsLabelled items con l.1)
]

pub update_connection-IsRegistry :
    {gone : List Bytes} (manager : Manager) (con : Connection)
    → (IsRegistry gone) manager
    → (IsRegistry gone) (update_connection manager con)
unfolding update_connection
update_connection-IsRegistry manager con r = record {
  distinct = update_item-IsDistinct manager.connections con r.distinct;
  labelled = update_item-IsLabelled manager.connections con r.labelled;
  distinct_blacklist = r.distinct_blacklist;
  left_behind = r.left_behind;
}

find-update_item :
    (items : List (Item Connection)) (con old : Connection)
    → find_by_hash items con.hash ≡ some old
    → find_by_hash (update_item items con.hash con) con.hash ≡ some con
unfolding find_by_hash update_item
find-update_item [] con old h = cc
find-update_item (item ∷ items) con old h = elim (Bool-cases (str_eq item.hash con.hash)) [
  | inl here ↦ rw here (rw here refl)
  | inr there ↦ rw there (rw there (find-update_item items con old (rw there at h)))
]

-- A registered connection that changed is found as it is now.
pub find-update_connection :
    (manager : Manager) (con old : Connection)
    → connection_find_by_hash manager con.hash ≡ some old
    → connection_find_by_hash (update_connection manager con) con.hash ≡ some con
unfolding connection_find_by_hash update_connection
find-update_connection manager con old h = find-update_item manager.connections con old h
