-- ===== src/ReadPreference/Sound.antt =====
-- Every candidate that `find_candidate_servers` returns is a connection of this process, of a type
-- that the read preference wants.
use mongo_hhvm_driver.Base.{
  >>=-eq-some, some-injective, ℕ, Bool, true, false, Option, some, List, [], ◌∷◌, ◌++◌, ◌≡◌,
  if◌then◌else◌, length, ltb, Bool-cases, inl, inr,
}
use mongo_hhvm_driver.CLib.{Bytes}
use mongo_hhvm_driver.Types.{
  RpType, ConType, Connection, Tagset, ReadPreference, ServerDef, Servers,
}
use mongo_hhvm_driver.Hash.Create.{Md5, Credentials, credentials}
use mongo_hhvm_driver.Hash.Split.{split_hash}
use mongo_hhvm_driver.ReadPreference.Candidates.{
  wanted_types, find_all_candidate_servers, filter_candidates_by_tagset, split_hash_repl_set_name,
  filter_candidates_by_replicaset_name, filter_candidates_by_seed, filter_by_wanted,
  filter_candidates_by_credentials, allowed, allows_name,
}
use mongo_hhvm_driver.ReadPreference.Find.{
  first_tagset, limit_by_tagsets, limit_by_servers, find_candidate_servers,
}
use mongo_hhvm_driver.ReadPreference.Sort.{All}
use mongo_hhvm_driver.ReadPreference.Order.{All-select}
use mongo_hhvm_driver.ReadPreference.Collect.{IsOf, filter_connections-IsOf}

All-if {ℓ} :
    (P : Connection → Type ℓ) (b : Bool) (con : Connection) (rest : List Connection)
    → P con
    → All P rest
    → All P (if b then con ∷ rest else rest)
All-if P true con rest h k = (h, k)
All-if P false con rest h k = k

All-append {ℓ} :
    (P : Connection → Type ℓ) (xs ys : List Connection) → All P xs → All P ys → All P (xs ++ ys)
All-append P [] ys h k = k
All-append P (x ∷ xs) ys h k = (h.0, All-append P xs ys h.1 k)

-- Each filter keeps what holds of all its candidates.
module _ {ℓ} (P : Connection → Type ℓ) where
  All-by_replicaset_name :
      (col : List Connection) (wanted : Option Bytes) (col' : List Connection)
      → filter_candidates_by_replicaset_name col wanted ≡ some col'
      → All P col
      → All P col'
  unfolding filter_candidates_by_replicaset_name
  All-by_replicaset_name [] wanted col' e h = rw (← some-injective _ _ e) tt
  All-by_replicaset_name (con ∷ col) wanted col' e h =
      let (rest, found, e') = >>=-eq-some (filter_candidates_by_replicaset_name col wanted) _ e in
      let (name, _, done) = >>=-eq-some (split_hash_repl_set_name con.hash) _ e' in
      rw (← some-injective _ _ done) (
        All-if P (allows_name wanted name) con rest h.0
          (All-by_replicaset_name col wanted rest found h.1))

  All-by_tagset :
      (col : List Connection) (tagset : Tagset) (rp_type : RpType)
      → All P col
      → All P (filter_candidates_by_tagset col tagset rp_type)
  unfolding filter_candidates_by_tagset
  All-by_tagset col tagset rp_type h = All-select P _ col h

  All-first_tagset :
      (col : List Connection) (rp_type : RpType) (tagsets : List Tagset) (col' : List Connection)
      → first_tagset col rp_type tagsets ≡ some col'
      → All P col
      → All P col'
  unfolding first_tagset
  All-first_tagset col rp_type [] col' e h = cc
  All-first_tagset col rp_type (tagset ∷ tagsets) col' e h =
      let filtered : List Connection = filter_candidates_by_tagset col tagset rp_type in
      elim (Bool-cases (ltb 0 (length filtered))) [
        | inl found ↦ rw (← some-injective _ _ (rw found at e)) (All-by_tagset col tagset rp_type h)
        | inr empty ↦ All-first_tagset col rp_type tagsets col' (rw empty at e) h
      ]

  All-limit_by_tagsets :
      (col : List Connection) (rp_type : RpType) (tagsets : List Tagset) (col' : List Connection)
      → limit_by_tagsets col rp_type tagsets ≡ some col'
      → All P col
      → All P col'
  unfolding limit_by_tagsets
  All-limit_by_tagsets col rp_type [] col' e h = rw (← some-injective _ _ e) h
  All-limit_by_tagsets col rp_type (tagset ∷ tagsets) col' e h =
      All-first_tagset col rp_type (tagset ∷ tagsets) col' e h

  module _ (md5 : Md5) (pid : ℕ) where
    All-by_seed :
        (col : List Connection) (servers : List ServerDef)
        → All P col
        → All P (filter_candidates_by_seed md5 pid col servers)
    unfolding filter_candidates_by_seed
    All-by_seed col [] h = tt
    All-by_seed col (server ∷ servers) h =
        All-append P _ (filter_candidates_by_seed md5 pid col servers) (All-select P _ col h)
          (All-by_seed col servers h)

    All-by_wanted :
        (wanted : Option Credentials) (col col' : List Connection)
        → filter_by_wanted md5 pid wanted col ≡ some col'
        → All P col
        → All P col'
    unfolding filter_by_wanted
    All-by_wanted wanted [] col' e h = rw (← some-injective _ _ e) tt
    All-by_wanted wanted (con ∷ col) col' e h =
        let (rest, found, e') = >>=-eq-some (filter_by_wanted md5 pid wanted col) _ e in
        let (parts, _, e'') = >>=-eq-some (split_hash con.hash) _ e' in
        let (keep, _, done) = >>=-eq-some (allowed md5 pid wanted parts) _ e'' in
        rw (← some-injective _ _ done)
          (All-if P keep con rest h.0 (All-by_wanted wanted col rest found h.1))

    All-by_credentials :
        (col : List Connection) (servers : List ServerDef) (col' : List Connection)
        → filter_candidates_by_credentials md5 pid col servers ≡ some col'
        → All P col
        → All P col'
    unfolding filter_candidates_by_credentials
    All-by_credentials [] servers col' e h = rw (← some-injective _ _ e) tt
    All-by_credentials (con ∷ col) [] col' e h = cc
    All-by_credentials (con ∷ col) (server ∷ servers) col' e h =
        All-by_wanted (credentials server) (con ∷ col) col' e h

module _ (md5 : Md5) (pid : ℕ) where
  All-limit_by_servers :
      (P : Connection → Type 0) (col : List Connection) (servers : Servers) (con_type : ConType)
      (col' : List Connection)
      → limit_by_servers md5 pid col servers con_type ≡ some col'
      → All P col
      → All P col'
  unfolding limit_by_servers
  All-limit_by_servers P col servers ConType.replset col' e h =
      All-by_replicaset_name P col servers.options.repl_set_name col' e h
  All-limit_by_servers P col servers _ col' e h =
      rw (← some-injective _ _ e) (All-by_seed P md5 pid col servers.server h)

  -- Every candidate is a connection of this process and of a type that the read preference wants,
  -- whichever filters by replica set, seed, credentials and tag sets were applied.
  pub find_candidate_servers-IsOf :
      (connections : List Connection) (rp : ReadPreference) (servers : Servers) (types : ℕ)
      (col : List Connection)
      → wanted_types rp.type ≡ some types
      → find_candidate_servers md5 pid connections rp servers ≡ some (some col)
      → All (IsOf pid types) col
  unfolding find_candidate_servers find_all_candidate_servers
  find_candidate_servers-IsOf connections rp servers types col w e =
      let (f, collected, e₁) = >>=-eq-some (find_all_candidate_servers pid rp connections) _ e in
      let (types', w', filtered) = >>=-eq-some (wanted_types rp.type) _ collected in
      let (of_servers, limited, e₂) =
        >>=-eq-some (limit_by_servers md5 pid f.kept servers servers.options.con_type) _ e₁ in
      let (candidates, known, e₃) =
        >>=-eq-some (filter_candidates_by_credentials md5 pid of_servers servers.server) _ e₂ in
      let same : types' ≡ types = cc in
      let kept : All (IsOf pid types) f.kept =
        filter_connections-IsOf pid types connections f (rw same at filtered) in
      All-limit_by_tagsets (IsOf pid types) candidates rp.type rp.tagsets col
        (some-injective _ _ e₃)
        (All-by_credentials (IsOf pid types) md5 pid of_servers servers.server candidates known (
          All-limit_by_servers (IsOf pid types) f.kept servers servers.options.con_type of_servers
            limited kept))
