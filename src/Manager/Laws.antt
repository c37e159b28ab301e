-- ===== src/Manager/Laws.antt =====
-- Looking up in the registry after registering and deregistering.
use mongo_hhvm_driver.Base.{
  ℕ, true, false, Option, none, some, List, [], ◌∷◌, ◌++◌, if◌then◌else◌, ◌==◌, ◌≡◌, refl, ap, sym,
  ◌∙◌, Bool-cases, inl, inr, arith, is_some,
}
use mongo_hhvm_driver.CLib.{Bytes, str_eq, str_eq_iff, str_eq_refl, str_eq-ne}
use mongo_hhvm_driver.Types.{Callback, Connection}
use mongo_hhvm_driver.Manager.Registry.{
  Item, find_by_hash, register, deregister, add_connection_callback, deregister_callback,
  drop_callback,
}

abbrev pub or_else {ℓ} : {A : Type ℓ} → Option A → Option A → Option A
or_else none later = later
or_else (some a) later = some a

differs : (a b : Bytes) → str_eq a b ≡ false → str_eq b a ≡ false
differs a b h = str_eq-ne b a (λ e. let yes = (str_eq_iff a b).1 (sym e) in cc)

module _ {ℓ} {A : Type ℓ} where
  -- No two items have the same hash.
  abbrev pub IsDistinct : List (Item A) → Type ℓ
  IsDistinct [] = Unit
  IsDistinct (item ∷ items) = (find_by_hash items item.hash ≡ none) × IsDistinct items

  -- A hash is looked up among the old items first, and then it is that of the new item or not.
  pub find-register :
      (items : List (Item A)) (con : A) (hash wanted : Bytes)
      → find_by_hash (register items con hash) wanted
        ≡ or_else (find_by_hash items wanted) (if str_eq hash wanted then some con else none)
  unfolding find_by_hash register
  find-register [] con hash wanted = refl
  find-register (item ∷ items) con hash wanted = elim (Bool-cases (str_eq item.hash wanted)) [
    | inl same ↦ rw same refl
    | inr other ↦ rw other (find-register items con hash wanted)
  ]

  -- An item that was registered under a new hash is the one that deregistering the hash removes, and
  -- the items are as before.
  pub deregister-register :
      (items : List (Item A)) (con : A) (hash : Bytes)
      → find_by_hash items hash ≡ none
      → deregister (register items con hash) hash ≡ (items, true)
  unfolding find_by_hash register deregister
  deregister-register [] con hash h = rw (str_eq_refl hash) refl
  deregister-register (item ∷ items) con hash h = elim (Bool-cases (str_eq item.hash hash)) [
    | inl same ↦ let found = rw same at h in cc
    | inr other ↦ rw other (rw (deregister-register items con hash (rw other at h)) refl)
  ]

  -- Registering under a new hash keeps the hashes different.
  pub register-IsDistinct :
      (items : List (Item A)) (con : A) (hash : Bytes)
      → find_by_hash items hash ≡ none
      → IsDistinct items
      → IsDistinct (register items con hash)
  unfolding register find_by_hash
  register-IsDistinct [] con hash h d = (refl, tt)
  register-IsDistinct (item ∷ items) con hash h d = elim (Bool-cases (str_eq item.hash hash)) [
    | inl same ↦ let found = rw same at h in cc
    | inr other ↦ (
      find-register items con hash item.hash ∙ rw (d.0, differs item.hash hash other) refl,
      register-IsDistinct items con hash (rw other at h) d.1,
    )
  ]

  -- Where the hashes are different: after deregistering a hash it is not found, and every other hash
  -- is found as before.
  pub find-deregister :
      (items : List (Item A)) (hash wanted : Bytes)
      → IsDistinct items
      → find_by_hash (deregister items hash).0 wanted
        ≡ (if str_eq hash wanted then none else find_by_hash items wanted)
  unfolding find_by_hash deregister
  find-deregister [] hash wanted d = elim (Bool-cases (str_eq hash wanted)) [
    | inl e ↦ rw e refl
    | inr e ↦ rw e refl
  ]
  find-deregister (item ∷ items) hash wanted d = elim (Bool-cases (str_eq item.hash hash)) [
    | inl same ↦
        let same_hash : item.hash ≡ hash = (str_eq_iff item.hash hash).0 same in
        rw same (elim (Bool-cases (str_eq hash wanted)) [
          | inl e ↦
              let gone = d.0 in
              let w : hash ≡ wanted = (str_eq_iff hash wanted).0 e in
              rw e (ap (find_by_hash items) (sym (same_hash ∙ w)) ∙ d.0)
          | inr e ↦ rw e (rw (ap (λ k. str_eq k wanted) same_hash ∙ e) refl)
        ])
    | inr other ↦ rw other (elim (Bool-cases (str_eq item.hash wanted)) [
      | inl e ↦
          let w : item.hash ≡ wanted = (str_eq_iff item.hash wanted).0 e in
          let apart : str_eq hash wanted ≡ false =
            ap (str_eq hash) (sym w) ∙ differs item.hash hash other in
          rw (e, apart) refl
      | inr e ↦ rw e (find-deregister items hash wanted d.1)
    ])
  ]

  -- Deregistering reports whether the hash was found, and keeps the hashes different.
  pub deregister-IsDistinct :
      (items : List (Item A)) (hash : Bytes)
      → IsDistinct items
      → ((deregister items hash).1 ≡ is_some (find_by_hash items hash))
        × IsDistinct (deregister items hash).0
  unfolding find_by_hash deregister
  deregister-IsDistinct [] hash d = (refl, tt)
  deregister-IsDistinct (item ∷ items) hash d = elim (Bool-cases (str_eq item.hash hash)) [
    | inl same ↦ rw same (refl, d.1)
    | inr other ↦
        let (reported, distinct) = deregister-IsDistinct items hash d.1 in
        let apart : str_eq hash item.hash ≡ false = differs item.hash hash other in
        rw other (reported, (find-deregister items hash item.hash d.1 ∙ rw apart d.0, distinct))
  ]

-- A callback that is added and removed leaves the callbacks as before, where none has its data.
abbrev pub HasNoData : ℕ → List Callback → Type 0
HasNoData cursor [] = Unit
HasNoData cursor (callback ∷ callbacks) =
    ((callback.callback_data == cursor) ≡ false) × HasNoData cursor callbacks

drop_callback-append :
    (callbacks : List Callback) (callback : Callback)
    → HasNoData callback.callback_data callbacks
    → drop_callback (callbacks ++ (callback ∷ [])) callback.callback_data ≡ callbacks
unfolding drop_callback
drop_callback-append [] callback h =
    let same : (callback.callback_data == callback.callback_data) ≡ true = ground arith in
    rw same refl
drop_callback-append (c ∷ callbacks) callback h =
    rw h.0 (ap (◌∷◌ c) (drop_callback-append callbacks callback h.1))

-- Adding a callback and deregistering its data gives back the connection, where none of its
-- callbacks has that data.
pub deregister_callback-add :
    (con : Connection) (callback : Callback)
    → HasNoData callback.callback_data con.cleanup_list
    → deregister_callback (add_connection_callback con callback) callback.callback_data ≡ con
unfolding deregister_callback add_connection_callback
deregister_callback-add con callback h = rw (drop_callback-append con.cleanup_list callback h) refl
