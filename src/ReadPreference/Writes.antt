-- ===== src/ReadPreference/Writes.antt =====
-- A write goes to a primary: the choice is one of the candidates, and the candidates of a write are
-- primaries.
use mongo_hhvm_driver.Base.{
  ℕ, ◌-◌, ◌%◌, Bool, true, Option, none, some, List, [], ◌∷◌, ◌==◌, ltb, length, get_elem?, ◌≡◌,
  refl, >>=-eq-some, some-injective, Bool-cases, Option-cases, inl, inr,
}
use mongo_hhvm_driver.Base.Int.{ℤ}
use mongo_hhvm_driver.Types.{NodeType, node_bit, RpType, Connection, ReadPreference, Servers}
use mongo_hhvm_driver.Hash.Create.{Md5}
use mongo_hhvm_driver.ReadPreference.Candidates.{has_type, wanted_types, is_primary}
use mongo_hhvm_driver.ReadPreference.Sort.{All, Qsort, sort_function, sort_servers}
use mongo_hhvm_driver.ReadPreference.Order.{All-sort, All-At, All-select, All-map}
use mongo_hhvm_driver.ReadPreference.Find.{find_candidate_servers}
use mongo_hhvm_driver.ReadPreference.Sound.{find_candidate_servers-IsOf}
use mongo_hhvm_driver.ReadPreference.Pick.{
  is_near, near_first, select_nearest_servers, random_element, pick_primary_or, pick_before_primary,
  pick_server_from_set, choose_server,
}
use mongo_hhvm_driver.ReadPreference.Select.{
  Selection, choose_among, read_pref_for, select_connection,
}

module _ (p : Connection → Bool) where
  abbrev Passes : Connection → Type 0
  Passes con = p con ≡ true

  random_element-All :
      (rand : ℕ) (col : List Connection) (n : ℕ) (con : Connection)
      → All Passes col
      → random_element rand col n ≡ some con
      → Passes con
  unfolding random_element
  random_element-All rand col n con h e = elim (Bool-cases (n == 0)) [
    | inl empty ↦ let nothing = rw empty at e in cc
    | inr some_left ↦ All-At Passes col con h (rand % n, rw some_left at e)
  ]

  near_first-All :
      (col : List Connection) (latency : ℤ) (near : List Connection)
      → All Passes col
      → near_first col latency ≡ some near
      → All Passes near
  unfolding near_first
  near_first-All [] latency near h e = cc
  near_first-All (con ∷ col) latency near h e =
      rw (← some-injective _ _ e) (All-select Passes (is_near con.ping_ms latency) (con ∷ col) h)

  select_nearest-All :
      (rp_type : RpType) (col : List Connection) (latency : ℤ) (near : List Connection)
      → All Passes col
      → select_nearest_servers col latency rp_type ≡ some near
      → All Passes near
  unfolding select_nearest_servers
  select_nearest-All RpType.any col latency near h e = cc
  select_nearest-All RpType.other col latency near h e = cc
  select_nearest-All RpType.primary col latency near h e = near_first-All col latency near h e
  select_nearest-All RpType.primary_preferred col latency near h e =
      near_first-All col latency near h e
  select_nearest-All RpType.secondary col latency near h e = near_first-All col latency near h e
  select_nearest-All RpType.secondary_preferred col latency near h e =
      near_first-All col latency near h e
  select_nearest-All RpType.nearest col latency near h e = near_first-All col latency near h e

  pick_server-All :
      (rp_type : RpType) (rand : ℕ) (col : List Connection) (con : Connection)
      → All Passes col
      → pick_server_from_set rand col rp_type ≡ some con
      → Passes con
  unfolding pick_server_from_set pick_primary_or pick_before_primary
  pick_server-All RpType.primary_preferred rand col con h e =
      let (first, at, e') = >>=-eq-some (get_elem? col 0) _ e in
      elim (Bool-cases (is_primary first.connection_type)) [
        | inl yes_primary ↦
            let same : first ≡ con = some-injective _ _ (rw yes_primary at e') in
            rw (← same) (All-At Passes col first h (0, at))
        | inr other ↦ random_element-All rand col (length col) con h (rw other at e')
      ]
  pick_server-All RpType.secondary_preferred rand col con h e =
      elim (Bool-cases (ltb 1 (length col))) [
        | inl several ↦
            let (last, at, e') = >>=-eq-some (get_elem? col (length col - 1)) _ (rw several at e) in
            random_element-All rand col _ con h e'
        | inr single ↦ random_element-All rand col (length col) con h (rw single at e)
      ]
  pick_server-All RpType.primary rand col con h e = random_element-All rand col (length col) con h e
  pick_server-All RpType.secondary rand col con h e =
      random_element-All rand col (length col) con h e
  pick_server-All RpType.nearest rand col con h e = random_element-All rand col (length col) con h e
  pick_server-All RpType.any rand col con h e = random_element-All rand col (length col) con h e
  pick_server-All RpType.other rand col con h e = random_element-All rand col (length col) con h e

  sort_servers-All :
      (qsort : Qsort Connection) (col : List Connection) (rp_type : RpType)
      (sorted : List Connection)
      → All Passes col
      → sort_servers qsort col rp_type ≡ some sorted
      → All Passes sorted
  unfolding sort_servers
  sort_servers-All qsort col rp_type sorted h e = elim (Option-cases (sort_function rp_type)) [
    | inl no_order ↦ let nothing = rw (no_order, sort_servers) at e in cc
    | inr (cmp, f) ↦
        let same : qsort.sort cmp col ≡ sorted = some-injective _ _ (rw (f, sort_servers) at e) in
        rw (← same) (All-sort qsort cmp p col h)
  ]

  -- What holds of all candidates holds of the choice.
  pub choose_server-All :
      (qsort : Qsort Connection) (rand : ℕ) (col : List Connection) (latency : ℤ) (rp_type : RpType)
      (con : Connection)
      → All Passes col
      → choose_server qsort rand col latency rp_type ≡ some con
      → Passes con
  unfolding choose_server
  choose_server-All qsort rand col latency rp_type con h e =
      let (sorted, s, e₁) = >>=-eq-some (sort_servers qsort col rp_type) _ e in
      let (near, n, e₂) = >>=-eq-some (select_nearest_servers sorted latency rp_type) _ e₁ in
      pick_server-All rp_type rand near con
        (select_nearest-All rp_type sorted latency near
          (sort_servers-All qsort col rp_type sorted h s) n)
        e₂

only_primary : (t : NodeType) → has_type (node_bit NodeType.primary) t ≡ true → t ≡ NodeType.primary
unfolding has_type node_bit
only_primary NodeType.primary h = refl
only_primary NodeType.invalid h = cc
only_primary NodeType.standalone h = cc
only_primary NodeType.secondary h = cc
only_primary NodeType.arbiter h = cc
only_primary NodeType.mongos h = cc

abbrev is_write_target : Connection → Bool
is_write_target con = has_type (node_bit NodeType.primary) con.connection_type

chosen-injective : (a b : Connection) → Selection.chosen a ≡ Selection.chosen b → a ≡ b
chosen-injective a b h = cc

choose_among-All :
    (qsort : Qsort Connection) (rand : ℕ) (servers : Servers) (col : List Connection)
    (con : Connection)
    → All (λ c. is_write_target c ≡ true) col
    → choose_among qsort rand servers (some col) ≡ some (Selection.chosen con)
    → is_write_target con ≡ true
choose_among-All qsort rand servers [] con h e = cc
choose_among-All qsort rand servers (c ∷ col) con h e =
    let (best, found, e') =
      >>=-eq-some
        (choose_server qsort rand (c ∷ col) servers.options.secondary_acceptable_latency_ms
          servers.read_pref.type)
        _ e in
    let same : best ≡ con = chosen-injective best con (some-injective _ _ e') in
    rw (← same) (
      choose_server-All is_write_target qsort rand (c ∷ col)
        servers.options.secondary_acceptable_latency_ms servers.read_pref.type best h found)

choose_among-primary :
    (md5 : Md5) (pid : ℕ) (qsort : Qsort Connection) (rand : ℕ) (connections : List Connection)
    (servers : Servers) (rp : ReadPreference) (candidates : Option (List Connection))
    (con : Connection)
    → wanted_types rp.type ≡ some (node_bit NodeType.primary)
    → find_candidate_servers md5 pid connections rp servers ≡ some candidates
    → choose_among qsort rand servers candidates ≡ some (Selection.chosen con)
    → is_write_target con ≡ true
choose_among-primary md5 pid qsort rand connections servers rp none con w f e = cc
choose_among-primary md5 pid qsort rand connections servers rp (some col) con w f e =
    choose_among-All qsort rand servers col con
      (All-map (λ d h. h.1) col
        (find_candidate_servers-IsOf md5 pid connections rp servers (node_bit NodeType.primary) col
          w f))
      e

-- A connection that a call for a replica set chooses for a write is one to a primary, whatever the read
-- preference, the tag sets, the number that `rand()` returns and the order that `qsort` gives to equal
-- elements.
pub select_connection-primary :
    (md5 : Md5) (pid : ℕ) (qsort : Qsort Connection) (rand : ℕ) (connections : List Connection)
    (servers : Servers) (dont_filter : Bool) (con : Connection)
    → select_connection md5 pid qsort rand connections servers true dont_filter
      ≡ some (Selection.chosen con)
    → con.connection_type ≡ NodeType.primary
unfolding select_connection wanted_types
select_connection-primary md5 pid qsort rand connections servers dont_filter con e =
    let rp : ReadPreference = read_pref_for true dont_filter servers.read_pref in
    let (candidates, found, e') =
      >>=-eq-some (find_candidate_servers md5 pid connections rp servers) _ e in
    only_primary con.connection_type
      (choose_among-primary md5 pid qsort rand connections servers rp candidates con refl found e')
