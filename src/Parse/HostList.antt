-- ===== src/Parse/HostList.antt =====
-- The hosts that `mongo_parse_server_spec` finds in a list that is written from hosts and ports,
-- host:port,host:port, with the end of the string or a slash behind it.
use mongo_hhvm_driver.Base.{
  drop_behind, drop-add, ◌>>=◌, ℕ, suc, ◌+◌, ◌<◌, ◌^◌, true, false, Option, none, some, List, [],
  ◌∷◌, ◌++◌, ◌==◌, length, drop, ◌≡◌, ◌≢◌, refl, ap, ◌∙◌, arith,
}
use mongo_hhvm_driver.Base.Int.{pos}
use mongo_hhvm_driver.CLib.{Bytes, atoi, print_nat, Lacks, atoi-print_nat, print_nat-Lacks, stops}
use mongo_hhvm_driver.Types.{ServerDef, Servers}
use mongo_hhvm_driver.Parse.Slices.{slice_lem}
use mongo_hhvm_driver.Parse.Hosts.{
  parsed_server, add_server, add_parsed_server_addr, HostScan, HostsEnd, scan_host_byte, scan_hosts,
  last_host, next_host,
}

-- A host without `:`, `,` and `/`, and a port in the range of `int`.
pub record Host : Type 0 where
  pub host : Bytes
  pub port : ℕ
  pub no_colon : Lacks b':' host
  pub no_comma : Lacks b',' host
  pub no_slash : Lacks b'/' host
  pub port_range : port < 2 ^ 31

abbrev pub parsed_host : Host → ServerDef
parsed_host h = parsed_server h.host (pos h.port)

abbrev pub print_hosts : Host → List Host → Bytes → Bytes
print_hosts h [] tail = h.host ++ (b':' ∷ (print_nat h.port ++ tail))
print_hosts h (next ∷ more) tail =
    h.host ++ (b':' ∷ (print_nat h.port ++ (b',' ∷ print_hosts next more tail)))

-- Adding the hosts one after the other.
abbrev pub add_all : Servers → Host → List Host → Option Servers
add_all servers h [] = add_server servers (parsed_host h)
add_all servers h (next ∷ more) =
    add_server servers (parsed_host h) >>= λ added. add_all added next more

-- The end of the string, or a slash.
abbrev pub IsTail : Bytes → Type 0
IsTail [] = Unit
IsTail (c ∷ _) = c ≡ b'/'

abbrev pub hosts_end : Bytes → Servers → HostsEnd
hosts_end rest servers = record { servers = servers; rest = rest }

scan_hosts-step :
    (s : Bytes) (scan : HostScan) (at c : ℕ) (cs : Bytes) (next : Option HostScan)
    → c ≢ b'/'
    → scan_host_byte s scan at c ≡ next
    → scan_hosts s scan at (c ∷ cs) ≡ (next >>= λ n. scan_hosts s n (at + 1) cs)
unfolding scan_hosts
scan_hosts-step s scan at c cs next h e =
    let other : (c == b'/') ≡ false = ground arith in
    rw (other, scan_hosts) (ap (λ n. n >>= λ k. scan_hosts s k (at + 1) cs) e)

scan_host_byte-plain :
    (s : Bytes) (scan : HostScan) (at c : ℕ)
    → c ≢ b':'
    → c ≢ b','
    → scan_host_byte s scan at c ≡ some scan
unfolding scan_host_byte
scan_host_byte-plain s scan at c h k =
    let no_colon : (c == b':') ≡ false = ground arith in
    let no_comma : (c == b',') ≡ false = ground arith in
    rw (no_colon, scan_host_byte) (rw (no_comma, scan_host_byte) refl)

scan_hosts-plain :
    (u s : Bytes) (scan : HostScan) (at : ℕ) (r : Bytes)
    → Lacks b':' u
    → Lacks b',' u
    → Lacks b'/' u
    → scan_hosts s scan at (u ++ r) ≡ scan_hosts s scan (at + length u) r
scan_hosts-plain [] s scan at r h k l = let same : at + 0 ≡ at = omega arith in rw same refl
scan_hosts-plain (c ∷ cs) s scan at r h k l =
    let more : at + suc (length cs) ≡ at + 1 + length cs = omega arith in
    scan_hosts-step s scan at c (cs ++ r) (some scan) l.0 (scan_host_byte-plain s scan at c h.0 k.0)
    ∙ (rw more (scan_hosts-plain cs s scan (at + 1) r h.1 k.1 l.1))

abbrev pub host_start : Servers → ℕ → HostScan
host_start servers at = record {
  servers = servers;
  host_start = at;
  host_end = none;
  port_start = none;
}

abbrev port_scan : Servers → ℕ → ℕ → HostScan
port_scan servers at end = record {
  servers = servers;
  host_start = at;
  host_end = some end;
  port_start = some (end + 1);
}

-- The loop over one host and its port, up to what stands behind the port.
scan_host :
    (servers : Servers) (s : Bytes) (at : ℕ) (h : Host) (r : Bytes)
    → scan_hosts s (host_start servers at) at (h.host ++ (b':' ∷ (print_nat h.port ++ r)))
      ≡ scan_hosts s
          (port_scan servers at (at + length h.host))
          (at + length h.host + 1 + length (print_nat h.port))
          r
unfolding scan_host_byte
scan_host servers s at h r =
    let end : ℕ = at + length h.host in
    let digits : Bytes = print_nat h.port in
    scan_hosts-plain h.host s (host_start servers at) at (b':' ∷ (digits ++ r)) h.no_colon
      h.no_comma h.no_slash
    ∙ (scan_hosts-step s (host_start servers at) end b':' (digits ++ r)
          (some (port_scan servers at end)) (omega arith) refl
        ∙ scan_hosts-plain digits s (port_scan servers at end) (end + 1) r
            (print_nat-Lacks b':' h.port refl) (print_nat-Lacks b',' h.port refl)
            (print_nat-Lacks b'/' h.port refl))

-- The host and the port are cut out of the string.
addr_lem :
    (servers : Servers) (s : Bytes) (at : ℕ) (h : Host) (r : Bytes)
    → stops r ≡ true
    → drop at s ≡ h.host ++ (b':' ∷ (print_nat h.port ++ r))
    → add_parsed_server_addr servers s at (at + length h.host) (some (at + length h.host + 1))
      ≡ add_server servers (parsed_host h)
unfolding add_parsed_server_addr
addr_lem servers s at h r stop e =
    let rest : Bytes = print_nat h.port ++ r in
    let port_at : drop (at + length h.host + 1) s ≡ rest =
      drop-add (at + length h.host) 1 s ∙ ap (drop 1) (drop_behind s h.host (b':' ∷ rest) at e) in
    let port : atoi (drop (at + length h.host + 1) s) ≡ pos h.port =
      ap atoi port_at ∙ atoi-print_nat h.port r stop h.port_range in
    rw (slice_lem s h.host (b':' ∷ rest) at e, port) refl

-- A failed step fails on both sides, and a step that succeeds goes on.
chain :
    (m : Option Servers) (f : Servers → HostScan) (k : HostScan → Option HostsEnd)
    (g : Servers → Option Servers) (t : Servers → Option HostsEnd)
    → ((a : Servers) → k (f a) ≡ (g a >>= t))
    → ((m >>= λ a. some (f a)) >>= k) ≡ ((m >>= g) >>= t)
chain none f k g t h = refl
chain (some a) f k g t h = h a

scan_hosts-tail :
    (s : Bytes) (scan : HostScan) (at : ℕ) (tail : Bytes)
    → IsTail tail
    → scan_hosts s scan at tail ≡ last_host s scan at tail
unfolding scan_hosts
scan_hosts-tail s scan at [] h = refl
scan_hosts-tail s scan at (c ∷ cs) h =
    let slash : (c == b'/') ≡ true = ground arith in rw (slash, scan_hosts) refl

tail-stops : (tail : Bytes) → IsTail tail → stops tail ≡ true
tail-stops [] h = refl
tail-stops (c ∷ cs) h = rw h refl

comma_byte :
    (s : Bytes) (servers : Servers) (at end pos' : ℕ)
    → scan_host_byte s (port_scan servers at end) pos' b',' ≡ (
        add_parsed_server_addr servers s at end (some (end + 1)) >>= λ added.
        some (next_host pos' added))
unfolding scan_host_byte
comma_byte s servers at end pos' = refl

pub scan_hosts-print_hosts :
    (more : List Host) (h : Host) (servers : Servers) (s : Bytes) (at : ℕ) (tail : Bytes)
    → IsTail tail
    → drop at s ≡ print_hosts h more tail
    → scan_hosts s (host_start servers at) at (print_hosts h more tail)
      ≡ (add_all servers h more >>= λ added. some (hosts_end tail added))
unfolding last_host
scan_hosts-print_hosts [] h servers s at tail t e =
    scan_host servers s at h tail
    ∙ (scan_hosts-tail s (port_scan servers at (at + length h.host))
          (at + length h.host + 1 + length (print_nat h.port)) tail t
        ∙ ap (λ m. m >>= λ added. some (hosts_end tail added))
            (addr_lem servers s at h tail (tail-stops tail t) e))
scan_hosts-print_hosts (next ∷ more) h servers s at tail t e =
    let rest : Bytes = print_hosts next more tail in
    let digits : Bytes = print_nat h.port in
    let end : ℕ = at + length h.host in
    let comma : ℕ = end + 1 + length digits in
    let port_at : drop (end + 1) s ≡ digits ++ (b',' ∷ rest) =
      drop-add end 1 s
      ∙ ap (drop 1) (drop_behind s h.host (b':' ∷ (digits ++ (b',' ∷ rest))) at e) in
    let next_at : drop (comma + 1) s ≡ rest =
      drop-add comma 1 s ∙ ap (drop 1) (drop_behind s digits (b',' ∷ rest) (end + 1) port_at) in
    let added : add_parsed_server_addr servers s at end (some (end + 1))
        ≡ add_server servers (parsed_host h) =
      addr_lem servers s at h (b',' ∷ rest) refl e in
    scan_host servers s at h (b',' ∷ rest)
    ∙ (scan_hosts-step s (port_scan servers at end) comma b',' rest
          (add_server servers (parsed_host h) >>= λ a. some (next_host comma a)) (omega arith)
          (comma_byte s servers at end comma ∙ ap (λ m. m >>= λ a. some (next_host comma a)) added)
        ∙ chain (add_server servers (parsed_host h)) (next_host comma) _ (λ a. add_all a next more)
            (λ a. some (hosts_end tail a))
            (λ a. scan_hosts-print_hosts more next a s (comma + 1) tail t next_at))
