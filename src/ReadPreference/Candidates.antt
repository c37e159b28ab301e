-- ===== src/ReadPreference/Candidates.antt =====
-- `mongo_find_candidate_servers` and the filters that it applies. A collection is the list of its
-- elements (`Collection.Gather` relates the two); `none` is undefined behaviour, mostly a NULL that
-- is followed. What is only logged is left out.
use Prim.Native.Nat.{bit_and, bit_or}
use mongo_hhvm_driver.Base.{
  ◌>>=◌, ℕ, ◌+◌, Bool, true, false, not, ◌&&◌, Option, none, some, List, [], ◌∷◌, ◌++◌, ◌==◌,
  if◌then◌else◌, length, select,
}
use mongo_hhvm_driver.Base.Int.{pos, eqb_ℤ}
use mongo_hhvm_driver.CLib.{Bytes, str_eq, split_at}
use mongo_hhvm_driver.Types.{
  NodeType, node_bit, RpType, Connection, Tagset, ReadPreference, ServerDef,
}
use mongo_hhvm_driver.Hash.Create.{
  Md5, Credentials, credentials, create_hash, create_hashed_password,
}
use mongo_hhvm_driver.Hash.Split.{first, Parts, split_hash, hash_to_pid}

-- con->connection_type & types
unfoldable pub has_type : ℕ → NodeType → Bool
has_type types t = not (bit_and (node_bit t) types == 0)

-- What `filter_connections` adds to its collection, and what it hands to `manager->forget`.
pub record Filtered : Type 0 where
  pub kept : List Connection
  pub forgotten : List Connection

unfoldable pub sort_out : Bool → Bool → Connection → Filtered → Filtered
sort_out same_pid fits con rest =
    if not same_pid
    then record rest { forgotten = con ∷ rest.forgotten }
    else if fits
    then record rest { kept = con ∷ rest.kept }
    else rest

-- filter_connections, over the connections of the manager in their order
unfoldable pub filter_connections : ℕ → ℕ → List Connection → Option Filtered
unfolding has_type sort_out
filter_connections current_pid types [] = some (record { kept = []; forgotten = [] })
filter_connections current_pid types (con ∷ rest) = do
  filtered ← filter_connections current_pid types rest
  connection_pid ← hash_to_pid con.hash
  some (
      sort_out (eqb_ℤ connection_pid (pos current_pid)) (has_type types con.connection_type) con
        filtered)

-- The node types that the `mongo_rp_collect_*` functions ask for; `default` returns NULL.
unfoldable pub wanted_types : RpType → Option ℕ
wanted_types RpType.primary = some (node_bit NodeType.primary)
wanted_types RpType.primary_preferred =
    some (bit_or (node_bit NodeType.primary) (node_bit NodeType.secondary))
wanted_types RpType.secondary_preferred =
    some (bit_or (node_bit NodeType.primary) (node_bit NodeType.secondary))
wanted_types RpType.secondary = some (node_bit NodeType.secondary)
wanted_types RpType.nearest =
    some (bit_or (node_bit NodeType.primary) (node_bit NodeType.secondary))
wanted_types RpType.any = some (
    bit_or
      (bit_or
        (bit_or (bit_or (node_bit NodeType.standalone) (node_bit NodeType.primary))
          (node_bit NodeType.secondary))
        (node_bit NodeType.mongos))
      (node_bit NodeType.arbiter))
wanted_types RpType.other = none

-- mongo_find_all_candidate_servers
unfoldable pub find_all_candidate_servers : ℕ → ReadPreference → List Connection → Option Filtered
find_all_candidate_servers current_pid rp connections = do
  types ← wanted_types rp.type
  filter_connections current_pid types connections

-- The inner loop of `candidate_matches_tags`: how many of the connection's tags equal this one.
unfoldable pub count_tag : Bytes → List Bytes → ℕ
count_tag tag [] = 0
count_tag tag (t ∷ tags) = (if str_eq tag t then 1 else 0) + count_tag tag tags

unfoldable pub count_found : Tagset → List Bytes → ℕ
count_found [] tags = 0
count_found (tag ∷ tagset) tags = count_tag tag tags + count_found tagset tags

-- candidate_matches_tags
unfoldable pub candidate_matches_tags : Connection → Tagset → Bool
unfolding count_found count_tag
candidate_matches_tags con tagset = count_found tagset con.tags == length tagset

abbrev pub is_primary : NodeType → Bool
is_primary NodeType.primary = true
is_primary _ = false

abbrev is_primary_preferred : RpType → Bool
is_primary_preferred RpType.primary_preferred = true
is_primary_preferred _ = false

-- mongo_filter_candidates_by_tagset
unfoldable pub filter_candidates_by_tagset : List Connection → Tagset → RpType → List Connection
filter_candidates_by_tagset candidates tagset rp_type =
    select
      (λ con.
        if is_primary_preferred rp_type && is_primary con.connection_type
        then true
        else candidate_matches_tags con tagset)
      candidates

-- mongo_server_split_hash where only the replica set's name is asked for
unfoldable pub split_hash_repl_set_name : Bytes → Option (Option Bytes)
split_hash_repl_set_name hash = do
  (host, after_colon) ← split_at b':' hash
  (port, after_port) ← split_at b';' after_colon
  (name, after_name) ← split_at b';' after_port
  some (if first after_port == b'-' then none else some name)

abbrev pub allows_name : Option Bytes → Option Bytes → Bool
allows_name wanted none = false
allows_name none (some name) = true
allows_name (some w) (some name) = str_eq name w

-- mongo_filter_candidates_by_replicaset_name; `wanted` is `servers->options.repl_set_name`
unfoldable pub filter_candidates_by_replicaset_name :
    List Connection → Option Bytes → Option (List Connection)
filter_candidates_by_replicaset_name [] wanted = some []
filter_candidates_by_replicaset_name (con ∷ candidates) wanted = do
  filtered ← filter_candidates_by_replicaset_name candidates wanted
  name ← split_hash_repl_set_name con.hash
  some (if allows_name wanted name then con ∷ filtered else filtered)

module _ (md5 : Md5) (pid : ℕ) where
  -- mongo_filter_candidates_by_seed
  unfoldable pub filter_candidates_by_seed : List Connection → List ServerDef → List Connection
  filter_candidates_by_seed candidates [] = []
  filter_candidates_by_seed candidates (server ∷ servers) =
      select (λ con. str_eq con.hash (create_hash md5 pid server)) candidates
      ++ filter_candidates_by_seed candidates servers

  -- The three comparisons for one candidate; `strcmp` of a NULL is undefined.
  unfoldable pub same_credentials : Credentials → Parts → Option Bool
  same_credentials wanted parts = do
    db ← parts.database
    username ← parts.username
    auth_hash ← parts.auth_hash
    some (
        str_eq db wanted.db
        && (str_eq username wanted.username
            && str_eq auth_hash (create_hashed_password md5 pid username wanted.password)))

  abbrev pub allowed : Option Credentials → Parts → Option Bool
  allowed none parts = some true
  allowed (some wanted) parts = same_credentials wanted parts

  unfoldable pub filter_by_wanted : Option Credentials → List Connection → Option (List Connection)
  filter_by_wanted wanted [] = some []
  filter_by_wanted wanted (con ∷ candidates) = do
    filtered ← filter_by_wanted wanted candidates
    parts ← split_hash con.hash
    keep ← allowed wanted parts
    some (if keep then con ∷ filtered else filtered)

  -- mongo_filter_candidates_by_credentials: the first server's credentials count. With no server
  -- there is no `server[0]`, which is read once there is a candidate.
  unfoldable pub filter_candidates_by_credentials :
      List Connection → List ServerDef → Option (List Connection)
  filter_candidates_by_credentials [] servers = some []
  filter_candidates_by_credentials (con ∷ candidates) [] = none
  filter_candidates_by_credentials (con ∷ candidates) (server ∷ servers) =
      filter_by_wanted (credentials server) (con ∷ candidates)
