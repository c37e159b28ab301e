-- ===== src/Tests/ReadPreference.antt =====
-- Server selection in a small replica set: a near primary, a far and a near secondary.
use mongo_hhvm_driver.Base.{
  ◌↔◌, true, false, not, ◌&&◌, none, some, List, [], ◌∷◌, ◌≡◌, ◌≢◌, inl, inr, refl, arith, select,
}
use mongo_hhvm_driver.Base.Int.{ℤ, pos, negsuc, eqb_ℤ}
use mongo_hhvm_driver.CLib.{
  codes, str_eq, str_eq_iff, atoi, strtol, print_int, print_nat, split_at, rsplit_at,
}
use mongo_hhvm_driver.Types.{
  NodeType, node_bit, RpType, ConType, Connection, ReadPreference, ServerOptions, Servers,
}
use mongo_hhvm_driver.Hash.Create.{credentials, create_hash, create_hashed_password}
use mongo_hhvm_driver.Hash.RoundTrip.{IsSplittable}
use mongo_hhvm_driver.Hash.Pid.{hash_to_pid-create_hash}
use mongo_hhvm_driver.Hash.Split.{hash_to_pid, split_hash}
use mongo_hhvm_driver.ReadPreference.Candidates.{
  find_all_candidate_servers, sort_out, split_hash_repl_set_name, filter_candidates_by_tagset,
  filter_candidates_by_replicaset_name, filter_by_wanted, same_credentials, candidate_matches_tags,
  filter_connections, has_type, count_found, count_tag, filter_candidates_by_credentials,
  wanted_types,
}
use mongo_hhvm_driver.ReadPreference.Find.{
  limit_by_servers, limit_by_tagsets, first_tagset, find_candidate_servers,
}
use mongo_hhvm_driver.ReadPreference.Tags.{AllDifferent, HasAll, candidate_matches_tags_iff}
use mongo_hhvm_driver.ReadPreference.Collect.{IsOf, filter_connections-select}
use mongo_hhvm_driver.ReadPreference.Sound.{find_candidate_servers-IsOf}
use mongo_hhvm_driver.ReadPreference.Credentials.{credentials_compare_null}
use mongo_hhvm_driver.ReadPreference.Sort.{All, sort_any, sort_servers, sort_function}
use mongo_hhvm_driver.ReadPreference.Pick.{
  choose_server, select_nearest_servers, near_first, pick_server_from_set,
}
use mongo_hhvm_driver.ReadPreference.Select.{Selection, select_connection}
use mongo_hhvm_driver.ReadPreference.Writes.{select_connection-primary}
use mongo_hhvm_driver.ReadPreference.Negative.{choose_server_negative}
use mongo_hhvm_driver.Tests.Data.{toy_md5, member, server_at, open_member}
use mongo_hhvm_driver.Tests.Sorting.{by_insertion}

abbrev near_primary : Connection
near_primary = server_at NodeType.primary 5 (create_hash toy_md5 4711 member)

abbrev far_secondary : Connection
far_secondary = server_at NodeType.secondary 90 (create_hash toy_md5 4711 member)

abbrev near_secondary : Connection
near_secondary = server_at NodeType.secondary 12 (create_hash toy_md5 4711 member)

abbrev members : List Connection
members = far_secondary ∷ near_primary ∷ near_secondary ∷ []

choose_server_negative_example :
    choose_server by_insertion 7 members (negsuc 0) RpType.nearest ≡ none
choose_server_negative_example =
    choose_server_negative by_insertion 7 members 0 RpType.nearest tt (omega arith)

-- With `rand()` 7 the second of the two near ones is used, the near secondary.
choose_nearest : choose_server by_insertion 7 members (pos 15) RpType.nearest ≡ some near_secondary
unfolding choose_server sort_any sort_servers sort_function select_nearest_servers near_first
    pick_server_from_set
choose_nearest = refl

abbrev tagged : Connection
tagged = record near_secondary { tags = codes "dc:ny" ∷ codes "dc:ny" ∷ [] }

different_codes : codes "dc:ny" ≢ codes "rack:1"
unfolding str_eq
different_codes e = let same = (str_eq_iff (codes "dc:ny") (codes "rack:1")).1 e in cc

different : AllDifferent near_primary.tags
different = (λ h. elim h [ inl e ↦ different_codes e | inr k ↦ k ], (λ h. h, tt))

candidate_matches_tags_iff_example :
    (candidate_matches_tags near_primary (codes "rack:1" ∷ []) ≡ true)
    ↔ HasAll (codes "rack:1" ∷ []) near_primary.tags
candidate_matches_tags_iff_example =
    candidate_matches_tags_iff near_primary (codes "rack:1" ∷ []) different

abbrev members_pid : Connection → ℤ
members_pid con = pos 4711

members-pid : hash_to_pid (create_hash toy_md5 4711 member) ≡ some (pos 4711)
members-pid = hash_to_pid-create_hash toy_md5 4711 member (omega arith)

filter_connections-select_example :
    filter_connections 4711 (node_bit NodeType.primary) members
    ≡ some (record {
      kept =
          select
            (λ con.
              eqb_ℤ (pos 4711) (pos 4711)
              && has_type (node_bit NodeType.primary) con.connection_type)
            members;
      forgotten = select (λ con. not (eqb_ℤ (pos 4711) (pos 4711))) members;
    })
filter_connections-select_example =
    filter_connections-select 4711 (node_bit NodeType.primary) members_pid members
      (members-pid, (members-pid, (members-pid, tt)))

abbrev options : ServerOptions
options = record {
  con_type = ConType.replset;
  repl_set_name = some (codes "rs0");
  connect_timeout_ms = pos 60000;
  socket_timeout_ms = pos 30000;
  secondary_acceptable_latency_ms = pos 15;
  default_w = negsuc 0;
  default_wstring = none;
  default_wtimeout = negsuc 0;
  default_fsync = false;
  default_journal = false;
  ssl = 0;
  gssapi_service_name = none;
  ctx = none;
}

abbrev read_pref : ReadPreference
read_pref = record { type = RpType.secondary; tagsets = (codes "dc:ny" ∷ []) ∷ [] }

abbrev servers : Servers
servers = record { server = member ∷ []; options = options; read_pref = read_pref }

-- The two secondaries are candidates.
find_secondaries :
    find_candidate_servers toy_md5 4711 members read_pref servers
    ≡ some (some (far_secondary ∷ near_secondary ∷ []))
unfolding find_candidate_servers find_all_candidate_servers wanted_types filter_connections has_type
    sort_out node_bit hash_to_pid split_hash split_hash_repl_set_name limit_by_servers
    limit_by_tagsets first_tagset filter_candidates_by_tagset filter_candidates_by_replicaset_name
    filter_candidates_by_credentials filter_by_wanted same_credentials create_hash
    create_hashed_password credentials candidate_matches_tags count_found count_tag str_eq split_at
    rsplit_at atoi strtol print_nat print_int
find_secondaries = refl

secondary_types : wanted_types read_pref.type ≡ some (node_bit NodeType.secondary)
unfolding wanted_types
secondary_types = refl

find_candidate_servers-IsOf_example :
    All (IsOf 4711 (node_bit NodeType.secondary)) (far_secondary ∷ near_secondary ∷ [])
find_candidate_servers-IsOf_example =
    find_candidate_servers-IsOf toy_md5 4711 members read_pref servers (node_bit NodeType.secondary)
      (far_secondary ∷ near_secondary ∷ []) secondary_types find_secondaries

abbrev open_secondary : Connection
open_secondary = server_at NodeType.secondary 12 (create_hash toy_md5 4711 open_member)

open_member-IsSplittable : IsSplittable open_member
unfolding credentials
open_member-IsSplittable = record {
  host = omega arith;
  port = omega arith;
  name = omega arith;
  separated = tt;
}

credentials_compare_null_example :
    filter_candidates_by_credentials toy_md5 4711 (near_primary ∷ open_secondary ∷ []) (member ∷ [])
    ≡ none
unfolding credentials
credentials_compare_null_example =
    credentials_compare_null toy_md5 4711 (near_primary ∷ open_secondary ∷ []) member []
      (record { db = codes "shop"; username = codes "app"; password = codes "pw" }) open_secondary
      4711 open_member refl (1, refl) refl refl open_member-IsSplittable (omega arith)

-- The primary is chosen for a write, although secondaries are preferred.
select_primary :
    select_connection toy_md5 4711 by_insertion 7 members servers true false
    ≡ some (Selection.chosen near_primary)
unfolding find_candidate_servers find_all_candidate_servers wanted_types filter_connections has_type
    sort_out node_bit hash_to_pid split_hash split_hash_repl_set_name limit_by_servers
    limit_by_tagsets first_tagset filter_candidates_by_tagset filter_candidates_by_replicaset_name
    filter_candidates_by_credentials filter_by_wanted same_credentials create_hash
    create_hashed_password credentials candidate_matches_tags count_found count_tag str_eq split_at
    rsplit_at atoi strtol print_nat print_int select_connection choose_server sort_any sort_servers
    sort_function select_nearest_servers near_first pick_server_from_set
select_primary = refl

select_connection-primary_example : near_primary.connection_type ≡ NodeType.primary
select_connection-primary_example =
    select_connection-primary toy_md5 4711 by_insertion 7 members servers false near_primary
      select_primary
