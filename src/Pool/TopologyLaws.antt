-- ===== src/Pool/TopologyLaws.antt =====
-- `mongo_discover_topology` keeps the invariant of the registry.
use mongo_hhvm_driver.Base.{
  ℕ, zero, suc, ◌+◌, false, Option, none, some, List, [], ◌∷◌, refl, get_elem?,
}
use mongo_hhvm_driver.CLib.{Bytes}
use mongo_hhvm_driver.Types.{Connection, ServerDef, ServerOptions, Servers}
use mongo_hhvm_driver.Hash.Create.{create_hash}
use mongo_hhvm_driver.Manager.Registry.{Manager, connection_find_by_hash}
use mongo_hhvm_driver.Manager.Invariant.{IsRegistry}
use mongo_hhvm_driver.Connection.Effect.{Attempt}
use mongo_hhvm_driver.Connection.Discover.{Discovery}
use mongo_hhvm_driver.Connection.Decode.{Code, Ismaster}
use mongo_hhvm_driver.Connection.Frame.{ismaster-Keeps}
use mongo_hhvm_driver.Connection.Ismaster.{ismaster}
use mongo_hhvm_driver.Parse.Hosts.{max_servers}
use mongo_hhvm_driver.Pool.Effect.{Setup, Act, ◌>>=◌, return, deregister_connection, run_registered}
use mongo_hhvm_driver.Pool.Handshake.{HasHash, HasHash-IsKept, LoginKeepsHash}
use mongo_hhvm_driver.Pool.Topology.{
  Topology, give_back, name_options, found_server, add_found, judge_new, check_new, connect_new,
  visit_host, visit_hosts, visit_found, judge_server, ask_server, visit_server, visit_at,
  visit_servers, discover_topology,
}
use mongo_hhvm_driver.Pool.Triple.{
  Triple, bind_Triple, return_Triple, lift_Triple, get_manager_Triple, consequence_Triple,
}
use mongo_hhvm_driver.Pool.Registered.{deregister_connection-Triple, run_registered_lem}
use mongo_hhvm_driver.Pool.Update.{update_connection-IsRegistry}
use mongo_hhvm_driver.Pool.SingleLaws.{get_connection_single-Triple}

module _ {W : Type 0} (setup : Setup W) (gone : List Bytes)
    (keeps_hash : LoginKeepsHash setup) where
  abbrev Kept : Topology → Manager → Type 0
  Kept t = (IsRegistry gone)

  removed :
      (con : Connection) (t : Topology)
      → Triple (IsRegistry gone) (deregister_connection setup con >>= λ gone. return t) Kept
  removed con t =
      bind_Triple (IsRegistry gone) (λ _. (IsRegistry gone)) Kept _ _
        (deregister_connection-Triple setup gone con) λ gone. return_Triple _ Kept t (λ m r. r)

  stays : (t : Topology) → Triple {W = W} (IsRegistry gone) (return t) Kept
  stays t = return_Triple (IsRegistry gone) Kept t (λ m r. r)

  judge_new-Triple :
      (t : Topology) (con : Connection) (code : Code)
      → Triple (IsRegistry gone) (judge_new setup t con code) Kept
  judge_new-Triple t con Code.worked = stays t
  judge_new-Triple t con Code.skipped = stays t
  judge_new-Triple t con Code.unsupported = removed con (record t { supported = false })
  judge_new-Triple t con Code.error = removed con t
  judge_new-Triple t con Code.renamed = removed con t

  asked :
      (con : Connection) (options : ServerOptions) (d : Option Discovery)
      → Triple
          (IsRegistry gone)
          (run_registered setup con (ismaster setup.io setup.intervals options d))
          (λ _. (IsRegistry gone))
  asked con options d =
      run_registered_lem setup gone (IsRegistry gone) (HasHash con.hash) (λ _. (IsRegistry gone))
        con _
        (ismaster-Keeps (HasHash con.hash) setup.io options (HasHash-IsKept con.hash)
          setup.intervals d)
        refl (λ m con' r h. update_connection-IsRegistry m con' r)

  checked_new :
      (t : Topology)
      → (r : Attempt Ismaster × Connection)
      → Triple
          (IsRegistry gone)
          (elim r.0 [
            | Attempt.failed e ↦ return t
            | Attempt.done answer ↦ judge_new setup t r.1 answer.code
          ])
          Kept
  checked_new t (Attempt.failed e, con) = stays t
  checked_new t (Attempt.done answer, con) = judge_new-Triple t con answer.code

  check_new-Triple :
      (t : Topology) (con : Attempt Connection)
      → Triple (IsRegistry gone) (check_new setup t con) Kept
  check_new-Triple t (Attempt.failed e) = stays t
  check_new-Triple t (Attempt.done con) =
      bind_Triple (IsRegistry gone) (λ _. (IsRegistry gone)) Kept _ _
        (asked con t.servers.options none) (checked_new t)

  connect_new-Triple :
      (t : Topology) (def : ServerDef) (o : Option Connection)
      → Triple (IsRegistry gone) (connect_new setup t def o) Kept
  connect_new-Triple t def (some con) = stays t
  connect_new-Triple t def none =
      bind_Triple (IsRegistry gone) (λ _. (IsRegistry gone)) Kept _ _
        (consequence_Triple _ (λ _. (IsRegistry gone))
          (get_connection_single-Triple setup gone keeps_hash t.servers.options def false)
          (λ r m k. k.0))
        λ made. check_new-Triple t made

  visit_host-Triple :
      (server : ServerDef) (t : Topology) (host : Bytes)
      → Triple (IsRegistry gone) (visit_host setup server t host) Kept
  unfolding visit_host
  visit_host-Triple server t host =
      bind_Triple (IsRegistry gone) (λ _. (IsRegistry gone)) Kept _ _
        (lift_Triple (IsRegistry gone) (λ _. (IsRegistry gone)) (found_server host server)
          (λ def m e r. r))
        λ def. get_manager_Triple (IsRegistry gone) Kept _ λ m r.
          bind_Triple _ Kept Kept _ _
            (record {
              holds = λ s e.
                  (connect_new-Triple t def
                      (connection_find_by_hash m (create_hash setup.md5 setup.pid def))).holds
                    s (rw e r);
            })
            λ t'. lift_Triple _ Kept (add_found t' def) (λ t'' m' e k. k)

  visit_hosts-Triple :
      (server : ServerDef) (hosts : List Bytes) (t : Topology)
      → Triple (IsRegistry gone) (visit_hosts setup server hosts t) Kept
  unfolding visit_hosts
  visit_hosts-Triple server [] t = stays t
  visit_hosts-Triple server (host ∷ hosts) t =
      bind_Triple (IsRegistry gone) Kept Kept _ _ (visit_host-Triple server t host)
        λ t'. visit_hosts-Triple server hosts t'

  visit_found-Triple :
      (t : Topology) (d : Option Discovery) → Triple (IsRegistry gone) (visit_found setup t d) Kept
  visit_found-Triple t none = stays t
  visit_found-Triple t (some d) = visit_hosts-Triple d.server d.found_hosts (name_options t)

  judge_server-Triple :
      (t : Topology) (con : Connection) (code : Code) (e : Option Bytes) (d : Option Discovery)
      → Triple
          (IsRegistry gone)
          (judge_server setup t con (record { code = code; error_message = e; discovery = d }))
          Kept
  unfolding judge_server
  judge_server-Triple t con Code.unsupported e d = removed con (record t { supported = false })
  judge_server-Triple t con Code.error e d = removed con t
  judge_server-Triple t con Code.renamed e d =
      bind_Triple (IsRegistry gone) (λ _. (IsRegistry gone)) Kept _ _
        (deregister_connection-Triple setup gone con) λ gone. visit_found-Triple t d
  judge_server-Triple t con Code.worked e d = visit_found-Triple t d
  judge_server-Triple t con Code.skipped e d = stays t

  judged :
      (i : ℕ) (t : Topology)
      → (r : Attempt Ismaster × Connection)
      → Triple
          (IsRegistry gone)
          (elim r.0 [
            | Attempt.failed e ↦ return t
            | Attempt.done answer ↦ judge_server setup (give_back t i answer.discovery) r.1 answer
          ])
          Kept
  judged i t (Attempt.failed e, con) = stays t
  judged i t (Attempt.done answer, con) =
      judge_server-Triple (give_back t i answer.discovery) con answer.code answer.error_message
        answer.discovery

  ask_server-Triple :
      (i : ℕ) (server : ServerDef) (t : Topology) (o : Option Connection)
      → Triple (IsRegistry gone) (ask_server setup i server t o) Kept
  ask_server-Triple i server t none = stays t
  ask_server-Triple i server t (some con) =
      bind_Triple (IsRegistry gone) (λ _. (IsRegistry gone)) Kept _ _
        (asked con t.servers.options _) (judged i t)

  visit_server-Triple :
      (i : ℕ) (t : Topology) (server : ServerDef)
      → Triple (IsRegistry gone) (visit_server setup i t server) Kept
  unfolding visit_server
  visit_server-Triple i t server = get_manager_Triple (IsRegistry gone) Kept _ λ m r. record {
    holds = λ s e.
        (ask_server-Triple i server t
            (connection_find_by_hash m (create_hash setup.md5 setup.pid server))).holds
          s (rw e r);
  }

  visit_at-Triple :
      (loop : Topology → Act W Topology) (i : ℕ) (t : Topology) (o : Option ServerDef)
      → ((t' : Topology) → Triple (IsRegistry gone) (loop t') Kept)
      → Triple (IsRegistry gone) (visit_at setup loop i t o) Kept
  visit_at-Triple loop i t none k = stays t
  visit_at-Triple loop i t (some server) k =
      bind_Triple (IsRegistry gone) Kept Kept _ _ (visit_server-Triple i t server) λ t'. k t'

  visit_servers-Triple :
      (fuel i : ℕ) (t : Topology) → Triple (IsRegistry gone) (visit_servers setup fuel i t) Kept
  unfolding visit_servers
  visit_servers-Triple zero i t = stays t
  visit_servers-Triple (suc fuel) i t =
      visit_at-Triple (λ later. visit_servers setup fuel (i + 1) later) i t
        (get_elem? t.servers.server i) (λ t'. visit_servers-Triple fuel (i + 1) t')

pub discover_topology-Triple :
    {W : Type 0} (setup : Setup W) (gone : List Bytes) (keeps_hash : LoginKeepsHash setup)
    (servers : Servers)
    → Triple (IsRegistry gone) (discover_topology setup servers) (λ t. (IsRegistry gone))
unfolding discover_topology
discover_topology-Triple setup gone keeps_hash servers =
    visit_servers-Triple setup gone keeps_hash max_servers 0 _
