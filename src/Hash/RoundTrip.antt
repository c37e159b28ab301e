-- ===== src/Hash/RoundTrip.antt =====
-- `split_hash` takes apart what `create_hash` put together, where the strings hold no separator.
use mongo_hhvm_driver.Base.{
  ℕ, ◌+◌, ◌^◌, ◌<◌, Option, none, some, [], ◌∷◌, ◌++◌, ◌≡◌, ◌≢◌, refl, false, arith, ap,
  append_assoc, length, length-append, take, take-append_left, if◌then◌else◌, ◌==◌, le→leb, ◌∙◌,
  sym,
}
use mongo_hhvm_driver.Base.Int.{pos, IsInt}
use mongo_hhvm_driver.CLib.{
  Bytes, split_at, split_at-append, Lacks, Lacks-append, print_nat, print_int, print_int-Lacks,
  atoi-print_int,
}
use mongo_hhvm_driver.Types.{ServerDef}
use mongo_hhvm_driver.Hash.Create.{
  Md5, AllHex, Credentials, credentials, create_hash, create_hashed_password, repl_piece,
  credentials_piece,
}
use mongo_hhvm_driver.Hash.Split.{
  Parts, with_credentials, without_credentials, dup_between, split_hash, hash_to_server, first,
}
use mongo_hhvm_driver.Hash.Pid.{atoi-pid}

-- A replica set's name that is told from `-` and from what follows it.
abbrev pub IsName : Option Bytes → Type 0
IsName none = Unit
IsName (some n) = Lacks b';' n × (first n ≢ b'-')

-- Credentials that are told from `.` and from one another.
abbrev pub IsSeparated : Option Credentials → Type 0
IsSeparated none = Unit
IsSeparated (some c) =
    Lacks b'/' c.db
    × Lacks b'/' c.username
    × Lacks b';' c.db
    × Lacks b';' c.username
    × (first c.db ≢ b'.')

pub record IsSplittable (def : ServerDef) : Type 0 where
  pub host : Lacks b':' def.host
  pub port : IsInt def.port
  pub name : IsName def.repl_set_name
  pub separated : IsSeparated (credentials def)

AllHex-Lacks : (s : Bytes) → AllHex s → Lacks b';' s
AllHex-Lacks [] h = tt
AllHex-Lacks (c ∷ cs) h = (λ e. ground arith, AllHex-Lacks cs h.1)

first-append :
    (c d : ℕ) (n rest : Bytes) → d ≢ c → first n ≢ c → (first (n ++ (d ∷ rest)) == c) ≡ false
first-append c d [] rest h k = ground arith
first-append c d (x ∷ n) rest h k = ground arith

-- The replica set's piece is read back, with what follows it.
repl_piece_read :
    (r : Option Bytes) (rest : Bytes)
    → IsName r
    → (name : Bytes) × (split_at b';' (repl_piece r rest) ≡ some (name, rest))
      × ((if first (repl_piece r rest) == b'-' then none else some name) ≡ r)
repl_piece_read none rest h = (b'-' ∷ [], split_at-append b';' (b'-' ∷ []) rest (omega arith), refl)
repl_piece_read (some n) rest h =
    (n, split_at-append b';' n rest h.0, rw (first-append b'-' b';' n rest (omega arith) h.1))

dup_between-append :
    (h rest : Bytes) (start semi : ℕ)
    → semi ≡ start + length h
    → dup_between (h ++ rest) start semi ≡ h
dup_between-append h rest start semi e =
    rw (le→leb start semi (omega arith))
      (ap (λ k. take k (h ++ rest)) (omega arith) ∙ take-append_left h rest)

-- What `split_hash` has when it reaches the credentials.
abbrev pub address_parts : ServerDef → Parts
address_parts def = record {
  host = def.host;
  port = def.port;
  repl_set_name = def.repl_set_name;
  database = none;
  username = none;
  auth_hash = none;
  pid = pos 0;
}

-- What `split_hash` finds behind the replica set's name.
abbrev pub filled : Md5 → ℕ → Parts → Option Credentials → Parts
filled md5 pid parts none = record parts { pid = pos pid }
filled md5 pid parts (some c) = record parts {
  database = some c.db;
  username = some c.username;
  auth_hash = some (create_hashed_password md5 pid c.username c.password);
  pid = pos pid;
}

-- The first `;` of the credentials' piece ends the digest.
split_at-digest :
    (db user digest rest : Bytes)
    → Lacks b';' db
    → Lacks b';' user
    → Lacks b';' digest
    → split_at b';' (db ++ (b'/' ∷ (user ++ (b'/' ∷ (digest ++ (b';' ∷ rest))))))
      ≡ some (db ++ (b'/' ∷ (user ++ (b'/' ∷ digest))), rest)
split_at-digest db user digest rest hd hu hh =
    let inner : Bytes = user ++ (b'/' ∷ digest) in
    ap (split_at b';') (simp append_assoc)
    ∙ split_at-append b';' (db ++ (b'/' ∷ inner)) rest (
        Lacks-append b';' db (b'/' ∷ inner) hd
          (omega arith, Lacks-append b';' user (b'/' ∷ digest) hu (omega arith, hh)))

length-digest :
    (db user digest : Bytes)
    → length (db ++ (b'/' ∷ (user ++ (b'/' ∷ digest))))
      ≡ length db + 1 + length user + 1 + length digest
length-digest db user digest =
    omega (
      arith,
      length-append db (b'/' ∷ (user ++ (b'/' ∷ digest))),
      length-append user (b'/' ∷ digest),
    )

module _ (md5 : Md5) (pid : ℕ) (h : pid < 2 ^ 31) where
  with_credentials_read :
      (parts : Parts) (c : Credentials)
      → IsSeparated (some c)
      → with_credentials parts (credentials_piece md5 pid (some c) (print_nat pid))
        ≡ some (filled md5 pid parts (some c))
  unfolding create_hashed_password
  with_credentials_read parts c s =
      let digest : Bytes = create_hashed_password md5 pid c.username c.password in
      let lacks : Lacks b';' digest = AllHex-Lacks digest (md5.hex_digits _) in
      rw (split_at-append b'/' c.db (c.username ++ (b'/' ∷ (digest ++ (b';' ∷ print_nat pid)))) s.0)
        (rw (split_at-append b'/' c.username (digest ++ (b';' ∷ print_nat pid)) s.1) (
          rw (split_at-digest c.db c.username digest (print_nat pid) s.2 s.3 lacks) (
            rw
              (dup_between-append digest (b';' ∷ print_nat pid)
                (length c.db + 1 + length c.username + 1)
                (length (c.db ++ (b'/' ∷ (c.username ++ (b'/' ∷ digest)))))
                (length-digest c.db c.username digest))
              (rw (atoi-pid pid h)))))

  credentials_piece_read :
      (parts : Parts) (c : Option Credentials)
      → IsSeparated c
      → (if first (credentials_piece md5 pid c (print_nat pid)) == b'.'
          then without_credentials parts (credentials_piece md5 pid c (print_nat pid))
          else with_credentials parts (credentials_piece md5 pid c (print_nat pid)))
        ≡ some (filled md5 pid parts c)
  credentials_piece_read parts none s =
      rw (split_at-append b';' (b'.' ∷ []) (print_nat pid) (omega arith)) (rw (atoi-pid pid h))
  credentials_piece_read parts (some c) s =
      rw (first-append b'.' b'/' c.db _ (omega arith) s.4) (with_credentials_read parts c s)

  -- What the hash of a definition's connection holds is read back from it: the address, the replica
  -- set's name, the process id, and, where the definition has a database, a user name and a password,
  -- the database, the user name and the password's digest. Where one of the three is missing, all three
  -- come back as NULL; the authentication database and the mechanism are not in the hash. The host holds
  -- no `:`, the set's name no `;` and no `-` in front, database and user name no `/` and no `;`, the
  -- database no `.` in front; the port is an `int`, and the process id below 2 ^ 31.
  pub split_hash-create_hash :
      (def : ServerDef)
      → IsSplittable def
      → split_hash (create_hash md5 pid def)
        ≡ some (filled md5 pid (address_parts def) (credentials def))
  unfolding split_hash create_hash
  split_hash-create_hash def s =
      let tail : Bytes = credentials_piece md5 pid (credentials def) (print_nat pid) in
      let behind : Bytes = repl_piece def.repl_set_name tail in
      let (name, found, named) = repl_piece_read def.repl_set_name tail s.name in
      rw (split_at-append b':' def.host (print_int def.port ++ (b';' ∷ behind)) s.host) (
        rw
          (split_at-append b';' (print_int def.port) behind
            (print_int-Lacks b';' def.port refl (omega arith)))
          (rw found (
            rw named (
              rw (atoi-print_int def.port (b';' ∷ behind) refl s.port)
                (credentials_piece_read (address_parts def) (credentials def) s.separated)))))

module _ (md5 : Md5) (pid : ℕ) where
  -- Host and port are read back from the hash, where the host holds no `;`.
  pub hash_to_server-create_hash :
      (def : ServerDef)
      → Lacks b';' def.host
      → hash_to_server (create_hash md5 pid def) ≡ some (def.host ++ (b':' ∷ print_int def.port))
  unfolding hash_to_server create_hash
  hash_to_server-create_hash def s =
      let rest : Bytes =
        repl_piece def.repl_set_name
          (credentials_piece md5 pid (credentials def) (print_nat pid)) in
      rw (
        ap (split_at b';') (sym (append_assoc def.host (b':' ∷ print_int def.port) (b';' ∷ rest)))
        ∙ split_at-append b';' (def.host ++ (b':' ∷ print_int def.port)) rest (
            Lacks-append b';' def.host (b':' ∷ print_int def.port) s
              (omega arith, print_int-Lacks b';' def.port refl (omega arith))))
