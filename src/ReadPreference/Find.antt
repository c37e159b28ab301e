-- ===== src/ReadPreference/Find.antt =====
-- `mongo_find_candidate_servers`, which runs the filters one after the other, and
-- `mongo_read_preference_squash_tagset`. NULL as a result is the `none` of a list, behind the outer
-- `none` of undefined behaviour.
use mongo_hhvm_driver.Base.{
  ◌>>=◌, ℕ, Bool, true, false, Option, none, some, List, [], ◌∷◌, if◌then◌else◌, length, ltb,
}
use mongo_hhvm_driver.CLib.{codes}
use mongo_hhvm_driver.Types.{RpType, ConType, Connection, Tagset, ReadPreference, Servers}
use mongo_hhvm_driver.Hash.Create.{Md5}
use mongo_hhvm_driver.Str.{Str, init, addl, add}
use mongo_hhvm_driver.ReadPreference.Candidates.{
  find_all_candidate_servers, filter_candidates_by_tagset, filter_candidates_by_replicaset_name,
  filter_candidates_by_seed, filter_candidates_by_credentials,
}

-- The loop over the tag sets: the first that leaves a candidate decides, and NULL if none does.
unfoldable pub first_tagset : List Connection → RpType → List Tagset → Option (List Connection)
first_tagset candidates rp_type [] = none
first_tagset candidates rp_type (tagset ∷ tagsets) =
    let filtered = filter_candidates_by_tagset candidates tagset rp_type in
    let later = first_tagset candidates rp_type tagsets in
    if ltb 0 (length filtered) then some filtered else later

-- if (rp->tagset_count != 0)
unfoldable pub limit_by_tagsets : List Connection → RpType → List Tagset → Option (List Connection)
unfolding first_tagset
limit_by_tagsets candidates rp_type [] = some candidates
limit_by_tagsets candidates rp_type (tagset ∷ tagsets) =
    first_tagset candidates rp_type (tagset ∷ tagsets)

module _ (md5 : Md5) (pid : ℕ) where
  -- By the set's name for a replica set, by the seeds for everything else.
  unfoldable pub limit_by_servers : List Connection → Servers → ConType → Option (List Connection)
  limit_by_servers all servers ConType.replset =
      filter_candidates_by_replicaset_name all servers.options.repl_set_name
  limit_by_servers all servers _ = some (filter_candidates_by_seed md5 pid all servers.server)

  unfoldable pub find_candidate_servers :
      List Connection → ReadPreference → Servers → Option (Option (List Connection))
  unfolding limit_by_servers limit_by_tagsets
  find_candidate_servers connections rp servers = do
    all ← find_all_candidate_servers pid rp connections
    of_servers ← limit_by_servers all.kept servers servers.options.con_type
    candidates ← filter_candidates_by_credentials md5 pid of_servers servers.server
    some (limit_by_tagsets candidates rp.type rp.tagsets)

-- The loop of `mongo_read_preference_squash_tagset`; the flag is `i`.
unfoldable pub squash_onto : Str → Bool → Tagset → Option Str
squash_onto str later [] = some str
squash_onto str later (tag ∷ tags) = do
  separated ← if later then addl str (codes ", ") else some str
  str' ← add separated tag
  squash_onto str' true tags

-- mongo_read_preference_squash_tagset
unfoldable pub squash_tagset : Tagset → Option Str
unfolding squash_onto
squash_tagset tagset = squash_onto init false tagset
