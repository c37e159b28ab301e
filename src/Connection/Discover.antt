-- ===== src/Connection/Discover.antt =====
-- The part of `mongo_connection_ismaster` that a caller with a server definition asks for: the name
-- of the host, the name of the replica set, and the hosts of the set.
use mongo_hhvm_driver.Base.{◌>>=◌, Option, none, some, List, ◌++◌, if◌then◌else◌, is_some}
use mongo_hhvm_driver.CLib.{Bytes, codes, str_eq, split_at, atoi}
use mongo_hhvm_driver.Types.{Connection, ServerDef}
use mongo_hhvm_driver.Hash.Split.{hash_to_server}
use mongo_hhvm_driver.Bson.Fields.{find_as_string}
use mongo_hhvm_driver.Connection.Tags.{read_hosts}

-- What the caller passes and gets back: the name of the set, the hosts, and the server definition
pub record Discovery : Type 0 where
  pub repl_set_name : Option Bytes
  pub found_hosts : List Bytes
  pub server : ServerDef

-- Where the discovery ends: with an error, or with the return value 1, or 3 if the host's name was
-- another than we thought.
pub data Verdict : Type 0 where
  rejected : Bytes → Verdict
  same_host renamed : Verdict

-- The host and the port of `host:port`; `none` is the use of a NULL.
abbrev pub set_host : Bytes → ServerDef → Option ServerDef
set_host name server = do
  (host, port) ← split_at b':' name
  some (record server { host = host; port = atoi port })

abbrev pub rename : Bytes → Bytes → ServerDef → Option (ServerDef × Verdict)
rename name expected server =
    let renamed = set_host name server >>= λ other. some (other, Verdict.renamed) in
    if str_eq name expected then some (server, Verdict.same_host) else renamed

abbrev pub check_name : Connection → ServerDef → Option Bytes → Option (ServerDef × Verdict)
check_name con server none = some (server, Verdict.same_host)
check_name con server (some name) =
    hash_to_server con.hash >>= λ expected. rename name expected server

mismatch : Bytes → Bytes → Bytes
mismatch expected found =
    codes "Host does not match replicaset name. Expected: "
    ++ (expected ++ (codes "; Found: " ++ found))

-- The test of the set's name: the message of the error, if there is one
unfoldable pub check_set : Option Bytes → Option Bytes → Option Bytes → Option Bytes
unfolding mismatch
check_set none expected errmsg =
    some (elim errmsg [ none ↦ codes "Not a replicaset member" | some message ↦ message ])
check_set (some set) none errmsg = none
check_set (some set) (some expected) errmsg =
    if str_eq set expected then none else some (mismatch expected set)

abbrev pub or_set : Option Bytes → Option Bytes → Option Bytes
or_set none set = set
or_set (some name) set = some name

-- The names that were not set become the name of the set that was found.
abbrev pub settle_names : Option Bytes → Discovery → Discovery
settle_names set d = record d {
  repl_set_name = or_set d.repl_set_name set;
  server = record d.server { repl_set_name = or_set d.server.repl_set_name set };
}

abbrev pub with_hosts : Bytes → Discovery → Verdict → Option (Discovery × Verdict)
with_hosts buffer d verdict =
    read_hosts buffer >>= λ hosts. some (record d { found_hosts = hosts }, verdict)

abbrev pub after_set :
    Bytes → Option Bytes → Discovery → Verdict → Option Bytes → Option (Discovery × Verdict)
after_set buffer set d verdict (some message) = some (d, Verdict.rejected message)
after_set buffer set d verdict none = with_hosts buffer (settle_names set d) verdict

-- From "me" to the hosts. The server's host is replaced also where the set is then rejected.
unfoldable pub discover :
    Bytes → Connection → Option Bytes → Discovery → Option (Discovery × Verdict)
unfolding find_as_string hash_to_server check_set read_hosts
discover buffer con set d = do
  me ← find_as_string buffer 4 (codes "me")
  (server, verdict) ← check_name con d.server me
  errmsg ← if is_some set then some none else find_as_string buffer 4 (codes "errmsg")
  after_set buffer set (record d { server = server }) verdict (check_set set d.repl_set_name errmsg)
