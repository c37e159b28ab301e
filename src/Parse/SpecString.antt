-- ===== src/Parse/SpecString.antt =====
-- `mongo_parse_server_spec` on a connection string that is written from its parts, and the limit of
-- the number of hosts.
use mongo_hhvm_driver.Base.{
  ◌>>=◌, ℕ, suc, ◌+◌, ◌≤◌, ◌<◌, true, false, none, some, List, [], ◌∷◌, ◌++◌, ◌==◌, ltb, length,
  map, ◌≡◌, ◌≢◌, refl, ap, ◌∙◌, arith, append_assoc, length-append, Bool-cases, inl, inr,
}
use mongo_hhvm_driver.CLib.{Bytes, Lacks, print_nat}
use mongo_hhvm_driver.Types.{ServerDef, Servers}
use mongo_hhvm_driver.Parse.Outcome.{set_servers}
use mongo_hhvm_driver.Parse.Hosts.{add_server, scan_hosts, parse_hosts, max_servers}
use mongo_hhvm_driver.Parse.HostList.{
  Host, parsed_host, print_hosts, add_all, IsTail, hosts_end, host_start, scan_hosts-print_hosts,
}

set_servers-append :
    (servers : Servers) (def : ServerDef) (xs : List ServerDef)
    → set_servers
        (set_servers servers (servers.server ++ (def ∷ [])))
        ((servers.server ++ (def ∷ [])) ++ xs)
      ≡ set_servers servers (servers.server ++ (def ∷ xs))
set_servers-append servers def xs =
    ap (set_servers servers) (append_assoc servers.server (def ∷ []) xs)

add_all-fits :
    (more : List Host) (h : Host) (servers : Servers)
    → length servers.server + suc (length more) ≤ max_servers
    → add_all servers h more
      ≡ some (set_servers servers (servers.server ++ map parsed_host (h ∷ more)))
unfolding add_server
add_all-fits [] h servers k =
    let room : ltb (length servers.server) max_servers ≡ true = ground arith in rw room refl
add_all-fits (next ∷ more) h servers k =
    let room : ltb (length servers.server) max_servers ≡ true = ground arith in
    rw room (
      add_all-fits more next (set_servers servers (servers.server ++ (parsed_host h ∷ [])))
        (omega (arith, length-append servers.server (parsed_host h ∷ [])))
      ∙ ap some (set_servers-append servers (parsed_host h) (map parsed_host (next ∷ more))))

add_all-overflows :
    (more : List Host) (h : Host) (servers : Servers)
    → max_servers < length servers.server + suc (length more)
    → add_all servers h more ≡ none
unfolding add_server
add_all-overflows [] h servers k =
    let full : ltb (length servers.server) max_servers ≡ false = ground arith in rw full refl
add_all-overflows (next ∷ more) h servers k =
    elim (Bool-cases (ltb (length servers.server) max_servers)) [
      | inr full ↦ rw full refl
      | inl room ↦ rw room (
          add_all-overflows more next (set_servers servers (servers.server ++ (parsed_host h ∷ [])))
            (omega (arith, length-append servers.server (parsed_host h ∷ []))))
    ]

parse_hosts_tcp :
    (servers : Servers) (c : ℕ) (cs : Bytes)
    → c ≢ b'/'
    → parse_hosts servers (c ∷ cs) ≡ scan_hosts (c ∷ cs) (host_start servers 0) 0 (c ∷ cs)
unfolding parse_hosts
parse_hosts_tcp servers c cs h = let tcp : (c == b'/') ≡ false = ground arith in rw tcp refl

-- A string with a colon in it does not start with a slash where the host has none.
parse_hosts-colon :
    (servers : Servers) (host r : Bytes)
    → Lacks b'/' host
    → parse_hosts servers (host ++ (b':' ∷ r))
      ≡ scan_hosts (host ++ (b':' ∷ r)) (host_start servers 0) 0 (host ++ (b':' ∷ r))
parse_hosts-colon servers [] r h = parse_hosts_tcp servers b':' r (omega arith)
parse_hosts-colon servers (c ∷ cs) r h = parse_hosts_tcp servers c (cs ++ (b':' ∷ r)) h.0

parse_hosts-scan :
    (servers : Servers) (h : Host) (more : List Host) (tail : Bytes)
    → parse_hosts servers (print_hosts h more tail)
      ≡ scan_hosts (print_hosts h more tail) (host_start servers 0) 0 (print_hosts h more tail)
parse_hosts-scan servers h [] tail =
    parse_hosts-colon servers h.host (print_nat h.port ++ tail) h.no_slash
parse_hosts-scan servers h (next ∷ more) tail =
    parse_hosts-colon servers h.host (print_nat h.port ++ (b',' ∷ print_hosts next more tail))
      h.no_slash

parse_hosts-add_all :
    (servers : Servers) (h : Host) (more : List Host) (tail : Bytes)
    → IsTail tail
    → parse_hosts servers (print_hosts h more tail)
      ≡ (add_all servers h more >>= λ added. some (hosts_end tail added))
parse_hosts-add_all servers h more tail t =
    parse_hosts-scan servers h more tail
    ∙ scan_hosts-print_hosts more h servers (print_hosts h more tail) 0 tail t refl

-- A list of hosts and ports, host:port with a comma between each two, up to the end of the string or
-- a slash, adds a server for each of them in their order, where there are sixteen servers at most.
pub parse_hosts-print_hosts :
    (servers : Servers) (h : Host) (more : List Host) (tail : Bytes)
    → IsTail tail
    → length servers.server + suc (length more) ≤ 16
    → parse_hosts servers (print_hosts h more tail)
      ≡ some (hosts_end tail (set_servers servers (servers.server ++ map parsed_host (h ∷ more))))
parse_hosts-print_hosts servers h more tail t few =
    parse_hosts-add_all servers h more tail t
    ∙ ap (λ m. m >>= λ added. some (hosts_end tail added)) (add_all-fits more h servers few)

-- With more than sixteen servers the array of servers is written behind its end.
pub parse_hosts_overflow :
    (servers : Servers) (h : Host) (more : List Host) (tail : Bytes)
    → IsTail tail
    → 16 < length servers.server + suc (length more)
    → parse_hosts servers (print_hosts h more tail) ≡ none
parse_hosts_overflow servers h more tail t many =
    parse_hosts-add_all servers h more tail t
    ∙ ap (λ m. m >>= λ added. some (hosts_end tail added)) (add_all-overflows more h servers many)
