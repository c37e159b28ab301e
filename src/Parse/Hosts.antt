-- ===== src/Parse/Hosts.antt =====
-- The hosts of a connection string: `mongo_add_parsed_server_addr`, and the part of
-- `mongo_parse_server_spec` that scans them. A pointer is an index into the string from the first
-- host on. `none` is undefined behaviour: a read behind the NUL, or a write behind the array of
-- servers.
use mongo_hhvm_driver.Base.{
  ◌>>=◌, ℕ, ◌+◌, Bool, true, false, Option, none, some, [], ◌∷◌, ◌++◌, ◌==◌, ltb, if◌then◌else◌,
  length, drop,
}
use mongo_hhvm_driver.Base.Int.{ℤ, pos}
use mongo_hhvm_driver.CLib.{Bytes, split_at, rsplit_at, atoi}
use mongo_hhvm_driver.Types.{Mechanism, ServerDef, Servers}
use mongo_hhvm_driver.Parse.Outcome.{set_servers}
use mongo_hhvm_driver.Parse.OptionString.{slice}

-- MAX_SERVERS_LIMIT
abbrev pub max_servers : ℕ
max_servers = 16

abbrev pub default_port : ℤ
default_port = pos 27017

abbrev pub parsed_server : Bytes → ℤ → ServerDef
parsed_server host port = record {
  host = host;
  port = port;
  repl_set_name = none;
  db = none;
  authdb = none;
  username = none;
  password = none;
  mechanism = Mechanism.mongodb_cr;
}

-- Without a check, as in the code: a seventeenth server is written behind the array.
unfoldable pub add_server : Servers → ServerDef → Option Servers
add_server servers def =
    if ltb (length servers.server) max_servers
    then some (set_servers servers (servers.server ++ (def ∷ [])))
    else none

abbrev pub port_of : Bytes → Option ℕ → ℤ
port_of s none = default_port
port_of s (some start) = atoi (drop start s)

-- mongo_add_parsed_server_addr
unfoldable pub add_parsed_server_addr : Servers → Bytes → ℕ → ℕ → Option ℕ → Option Servers
unfolding add_server
add_parsed_server_addr servers s host_start host_end port_start =
    add_server servers (parsed_server (slice s host_start host_end) (port_of s port_start))

pub record HostScan : Type 0 where
  pub servers : Servers
  pub host_start : ℕ
  pub host_end : Option ℕ
  pub port_start : Option ℕ

-- host_end ? host_end : pos
abbrev pub end_or : ℕ → Option ℕ → ℕ
end_or at none = at
end_or at (some end) = end

abbrev pub next_host : ℕ → Servers → HostScan
next_host at servers = record {
  servers = servers;
  host_start = at + 1;
  host_end = none;
  port_start = none;
}

-- The body of the loop, for a byte that is no slash.
unfoldable pub scan_host_byte : Bytes → HostScan → ℕ → ℕ → Option HostScan
unfolding add_parsed_server_addr
scan_host_byte s scan at c =
    if c == b':'
    then some (record scan { host_end = some at; port_start = some (at + 1) })
    else if c == b','
    then (add_parsed_server_addr scan.servers s scan.host_start (end_or at scan.host_end)
          scan.port_start
        >>= λ servers. some (next_host at servers))
    else some scan

-- What the hosts leave: the servers, and the string from `pos` on.
pub record HostsEnd : Type 0 where
  pub servers : Servers
  pub rest : Bytes

unfoldable pub last_host : Bytes → HostScan → ℕ → Bytes → Option HostsEnd
unfolding add_parsed_server_addr
last_host s scan at rest = do
  servers ←
      add_parsed_server_addr scan.servers s scan.host_start (end_or at scan.host_end)
        scan.port_start
  some (record { servers = servers; rest = rest })

unfoldable pub scan_hosts : Bytes → HostScan → ℕ → Bytes → Option HostsEnd
unfolding scan_host_byte last_host
scan_hosts s scan at [] = last_host s scan at []
scan_hosts s scan at (c ∷ cs) =
    let later = scan_host_byte s scan at c >>= λ next. scan_hosts s next (at + 1) cs in
    if c == b'/' then last_host s scan at (c ∷ cs) else later

has_dot : Option (Bytes × Bytes) → Bool
has_dot none = false
has_dot (some _) = true

-- A Unix domain socket, where the string starts with a slash: what stands behind the last slash
-- belongs to the path if it has a dot.
unfoldable pub parse_socket : Servers → Bytes → Option HostsEnd
unfolding add_server has_dot
parse_socket servers s = do
  (before, after) ← rsplit_at b'/' s
  let dot = has_dot (split_at b'.' after)
  added ← add_server servers (parsed_server (if dot then s else before) (pos 0))
  some (record { servers = added; rest = if dot then [] else b'/' ∷ after })

-- The loop for TCP tests for the NUL after its first step, so an empty string is undefined.
unfoldable pub parse_hosts : Servers → Bytes → Option HostsEnd
unfolding scan_hosts parse_socket
parse_hosts servers [] = none
parse_hosts servers (c ∷ cs) =
    if c == b'/'
    then parse_socket servers (c ∷ cs)
    else scan_hosts (c ∷ cs)
        (record { servers = servers; host_start = 0; host_end = none; port_start = none }) 0
        (c ∷ cs)
