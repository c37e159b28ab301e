-- ===== src/Pool/Topology.antt =====
-- `mongo_discover_topology`.
use mongo_hhvm_driver.Base.{
  ℕ, zero, suc, ◌+◌, Bool, true, false, Option, none, some, List, [], ◌∷◌, if◌then◌else◌, get_elem?,
}
use mongo_hhvm_driver.CLib.{Bytes}
use mongo_hhvm_driver.Types.{Connection, ServerDef, Servers}
use mongo_hhvm_driver.Hash.Create.{create_hash}
use mongo_hhvm_driver.Manager.Registry.{connection_find_by_hash}
use mongo_hhvm_driver.Manager.Contains.{contains}
use mongo_hhvm_driver.Connection.Effect.{Attempt}
use mongo_hhvm_driver.Connection.Discover.{Discovery, set_host}
use mongo_hhvm_driver.Connection.Decode.{Code, Ismaster}
use mongo_hhvm_driver.Connection.Ismaster.{ismaster}
use mongo_hhvm_driver.Parse.Hosts.{max_servers, add_server}
use mongo_hhvm_driver.Pool.Effect.{
  Setup, Act, ◌>>=◌, return, lift, get_manager, deregister_connection, run_registered,
}
use mongo_hhvm_driver.Pool.Single.{get_connection_single}

-- The local variables: the servers, which grow, the name of the set, and whether every wire version
-- was supported
pub record Topology : Type 0 where
  pub servers : Servers
  pub repl_set_name : Option Bytes
  pub supported : Bool

abbrev pub set_server : List ServerDef → ℕ → ServerDef → List ServerDef
set_server [] i def = []
set_server (server ∷ servers) zero def = def ∷ servers
set_server (server ∷ servers) (suc i) def = server ∷ set_server servers i def

-- What the call of ismaster gives back: the server and the name of the set, which it may have changed
abbrev pub give_back : Topology → ℕ → Option Discovery → Topology
give_back t i none = t
give_back t i (some d) = record t {
  servers = record t.servers { server = set_server t.servers.server i d.server };
  repl_set_name = d.repl_set_name;
}

-- The options take the name of the set, if they have none.
abbrev pub name_options : Topology → Topology
name_options t = record t {
  servers = record t.servers {
    options = record t.servers.options {
      repl_set_name = elim t.servers.options.repl_set_name [
        | none ↦ t.repl_set_name
        | some name ↦ some name
      ];
    };
  };
}

-- The definition of a host that was found, with the rest of the server's that named it
unfoldable pub found_server : Bytes → ServerDef → Option ServerDef
found_server host server = set_host host server

abbrev pub with_array : Topology → Option Servers → Option Topology
with_array t none = none
with_array t (some servers) = some (record t { servers = servers })

-- A new definition is stored at the end of the array.
unfoldable pub add_found : Topology → ServerDef → Option Topology
unfolding contains add_server
add_found t def =
    if contains t.servers.server def then some t else with_array t (add_server t.servers def)

abbrev pub unsupported_if : Bool → Topology → Topology
unsupported_if true t = record t { supported = false }
unsupported_if false t = t

module _ {W : Type 0} (setup : Setup W) where
  -- ismaster on a connection that was just made
  abbrev pub judge_new : Topology → Connection → Code → Act W Topology
  judge_new t con Code.worked = return t
  judge_new t con Code.skipped = return t
  judge_new t con Code.unsupported = do
    removed ← deregister_connection setup con
    return (record t { supported = false })
  judge_new t con _ = do removed ← deregister_connection setup con; return t

  abbrev pub check_new : Topology → Attempt Connection → Act W Topology
  check_new t (Attempt.failed e) = return t
  check_new t (Attempt.done con) = do
    (result, con') ←
        run_registered setup con (ismaster setup.io setup.intervals t.servers.options none)
    elim result [ Attempt.failed e ↦ return t | Attempt.done answer ↦ judge_new t con' answer.code ]

  abbrev pub connect_new : Topology → ServerDef → Option Connection → Act W Topology
  connect_new t def (some con) = return t
  connect_new t def none = do
    made ← get_connection_single setup t.servers.options def false
    check_new t made

  -- One host that was found
  unfoldable pub visit_host : ServerDef → Topology → Bytes → Act W Topology
  unfolding found_server create_hash connection_find_by_hash get_connection_single run_registered
      deregister_connection ismaster add_found
  visit_host server t host = do
    def ← lift (found_server host server)
    manager ← get_manager
    t' ← connect_new t def (connection_find_by_hash manager (create_hash setup.md5 setup.pid def))
    lift (add_found t' def)

  unfoldable pub visit_hosts : ServerDef → List Bytes → Topology → Act W Topology
  unfolding visit_host
  visit_hosts server [] t = return t
  visit_hosts server (host ∷ hosts) t = visit_host server t host >>= visit_hosts server hosts

  abbrev pub visit_found : Topology → Option Discovery → Act W Topology
  visit_found t none = return t
  visit_found t (some d) = visit_hosts d.server d.found_hosts (name_options t)

  -- What follows from the return value of ismaster
  unfoldable pub judge_server : Topology → Connection → Ismaster → Act W Topology
  unfolding deregister_connection visit_hosts
  judge_server t con answer = elim answer.code [
    | Code.unsupported ↦ do
      removed ← deregister_connection setup con
      return (record t { supported = false })
    | Code.error ↦ do removed ← deregister_connection setup con; return t
    | Code.renamed ↦ do removed ← deregister_connection setup con; visit_found t answer.discovery
    | Code.worked ↦ visit_found t answer.discovery
    | Code.skipped ↦ return t
  ]

  -- A server that has a connection is asked; one that has none is passed over.
  abbrev pub ask_server : ℕ → ServerDef → Topology → Option Connection → Act W Topology
  ask_server i server t none = return t
  ask_server i server t (some con) = do
    let request : Discovery = record {
      repl_set_name = t.repl_set_name;
      found_hosts = [];
      server = server;
    }
    (result, con') ←
        run_registered setup con
          (ismaster setup.io setup.intervals t.servers.options (some request))
    elim result [
      | Attempt.failed e ↦ return t
      | Attempt.done answer ↦ judge_server (give_back t i answer.discovery) con' answer
    ]

  unfoldable pub visit_server : ℕ → Topology → ServerDef → Act W Topology
  unfolding create_hash connection_find_by_hash run_registered ismaster judge_server
  visit_server i t server = do
    manager ← get_manager
    ask_server i server t (connection_find_by_hash manager (create_hash setup.md5 setup.pid server))

  abbrev pub visit_at :
      (Topology → Act W Topology) → ℕ → Topology → Option ServerDef → Act W Topology
  visit_at loop i t none = return t
  visit_at loop i t (some server) = visit_server i t server >>= loop

  -- The loop over the servers from `i` on; they are at most sixteen, and so is the fuel.
  unfoldable pub visit_servers : ℕ → ℕ → Topology → Act W Topology
  unfolding visit_server
  visit_servers zero i t = return t
  visit_servers (suc fuel) i t =
      visit_at (λ later. visit_servers fuel (i + 1) later) i t (get_elem? t.servers.server i)

  -- mongo_discover_topology: the servers, and whether every wire version was supported
  unfoldable pub discover_topology : Servers → Act W Topology
  unfolding visit_servers
  discover_topology servers = visit_servers max_servers 0 (record {
    servers = servers;
    repl_set_name = servers.options.repl_set_name;
    supported = true;
  })
