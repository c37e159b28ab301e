-- ===== src/Hash/Size.antt =====
-- The block that `create_hash` allocates against what it writes there.
use mongo_hhvm_driver.Base.{
  ℕ, ◌+◌, ◌≤◌, ◌<◌, ◌↔◌, Option, none, some, ◌∷◌, ◌++◌, ◌≡◌, arith, ap, length, length-append,
}
use mongo_hhvm_driver.Base.Int.{pos}
use mongo_hhvm_driver.CLib.{Bytes, print_nat, print_int, length-print_nat}
use mongo_hhvm_driver.Types.{ServerDef}
use mongo_hhvm_driver.Hash.Create.{
  Md5, Credentials, credentials, create_hash, hash_size, repl_piece, repl_size, credentials_piece,
  credentials_size, create_hashed_password,
}

-- The two bytes of a placeholder, for which `hash_size` counts nothing.
abbrev pub placeholder {ℓ} : {A : Type ℓ} → Option A → ℕ
placeholder none = 2
placeholder (some _) = 0

length-repl_piece :
    (r : Option Bytes) (rest : Bytes)
    → length (repl_piece r rest) ≡ repl_size r + placeholder r + length rest
length-repl_piece none rest = omega arith
length-repl_piece (some n) rest = omega (arith, length-append n (b';' ∷ rest))

module _ (md5 : Md5) (pid : ℕ) where
  length-credentials_piece :
      (c : Option Credentials) (rest : Bytes)
      → length (credentials_piece md5 pid c rest)
        ≡ credentials_size md5 pid c + placeholder c + length rest
  length-credentials_piece none rest = omega arith
  length-credentials_piece (some c) rest =
      let digest : Bytes = create_hashed_password md5 pid c.username c.password in
      omega (
        arith,
        length-append c.db (b'/' ∷ (c.username ++ (b'/' ∷ (digest ++ (b';' ∷ rest))))),
        length-append c.username (b'/' ∷ (digest ++ (b';' ∷ rest))),
        length-append digest (b';' ∷ rest),
      )

  length-create_hash :
      (def : ServerDef)
      → length (create_hash md5 pid def) + 1 + 14
        ≡ hash_size md5 pid def
          + length (print_int def.port)
          + length (print_nat pid)
          + placeholder def.repl_set_name
          + placeholder (credentials def)
  unfolding create_hash hash_size
  length-create_hash def =
      let tail : Bytes = credentials_piece md5 pid (credentials def) (print_nat pid) in
      let behind : Bytes = repl_piece def.repl_set_name tail in
      omega (
        arith,
        length-append def.host (b':' ∷ (print_int def.port ++ (b';' ∷ behind))),
        length-append (print_int def.port) (b';' ∷ behind),
        length-repl_piece def.repl_set_name tail,
        length-credentials_piece (credentials def) (print_nat pid),
      )

  -- The hash with its NUL fits the allocated block exactly when the digits of port and process id,
  -- and two bytes for each missing part, replica set's name or credentials, make 14 at most.
  pub create_hash_fits :
      (def : ServerDef)
      → (length (create_hash md5 pid def) + 1 ≤ hash_size md5 pid def) ↔ (
          length (print_int def.port)
            + length (print_nat pid)
            + placeholder def.repl_set_name
            + placeholder (credentials def)
          ≤ 14)
  create_hash_fits def =
      (λ fits. omega (arith, length-create_hash def), λ few. omega (arith, length-create_hash def))

  -- A write past the block: a port of five digits or more, a process id of six or more, no replica
  -- set's name and no credentials.
  pub create_hash_overflows :
      (def : ServerDef) (port : ℕ)
      → def.port ≡ pos port
      → 10000 ≤ port
      → 100000 ≤ pid
      → def.repl_set_name ≡ none
      → credentials def ≡ none
      → hash_size md5 pid def < length (create_hash md5 pid def) + 1
  unfolding print_int
  create_hash_overflows def port p digits5 digits6 r c = omega (
    arith,
    length-create_hash def,
    long_port,
    (length-print_nat 4 pid).0 digits6,
    ap placeholder r,
    ap placeholder c,
  )
    where
      long_port : 4 < length (print_int def.port)
      long_port = rw p ((length-print_nat 3 port).0 digits5)
