-- ===== src/Hash/Pid.antt =====
-- The process id is read back from every hash that `create_hash` wrote, whatever the strings hold.
use mongo_hhvm_driver.Base.{
  ℕ, ◌^◌, ◌<◌, Option, none, some, [], ◌∷◌, ◌++◌, ◌≡◌, refl, ap, append-nil,
}
use mongo_hhvm_driver.Base.Int.{pos}
use mongo_hhvm_driver.CLib.{
  atoi, print_nat-Lacks, rsplit_at-prefix, Bytes, rsplit_at, rsplit_at-append, print_nat,
  atoi-print_nat,
}
use mongo_hhvm_driver.Types.{ServerDef}
use mongo_hhvm_driver.Hash.Create.{Md5, Credentials, create_hash, repl_piece, credentials_piece}
use mongo_hhvm_driver.Hash.Split.{hash_to_pid}

-- A string whose last `;` stands before the process id.
abbrev EndsInPid : ℕ → Bytes → Type 0
EndsInPid pid s = (u : Bytes) × (rsplit_at b';' s ≡ some (u, print_nat pid))

EndsInPid-semi : (pid : ℕ) → EndsInPid pid (b';' ∷ print_nat pid)
EndsInPid-semi pid = ([], rsplit_at-append b';' [] (print_nat pid) (print_nat-Lacks b';' pid refl))

EndsInPid-append : (pid : ℕ) (xs ys : Bytes) → EndsInPid pid ys → EndsInPid pid (xs ++ ys)
EndsInPid-append pid xs ys (u, h) = (xs ++ u, rsplit_at-prefix b';' xs ys h)

EndsInPid-cons : (pid x : ℕ) (ys : Bytes) → EndsInPid pid ys → EndsInPid pid (x ∷ ys)
EndsInPid-cons pid x ys = EndsInPid-append pid (x ∷ []) ys

ruleset ends_rules = (EndsInPid-semi, EndsInPid-append, EndsInPid-cons)

module _ (md5 : Md5) (pid : ℕ) where
  credentials_piece-EndsInPid :
      (c : Option Credentials) → EndsInPid pid (credentials_piece md5 pid c (print_nat pid))
  credentials_piece-EndsInPid none = search ends_rules
  credentials_piece-EndsInPid (some c) = search ends_rules depth 8

  repl_piece-EndsInPid :
      (r : Option Bytes) (rest : Bytes) → EndsInPid pid rest → EndsInPid pid (repl_piece r rest)
  repl_piece-EndsInPid none rest h = search ends_rules
  repl_piece-EndsInPid (some r) rest h = search ends_rules

  create_hash-EndsInPid : (def : ServerDef) → EndsInPid pid (create_hash md5 pid def)
  unfolding create_hash
  create_hash-EndsInPid def =
      search (ends_rules, repl_piece-EndsInPid, credentials_piece-EndsInPid) depth 9

pub atoi-pid : (pid : ℕ) → pid < 2 ^ 31 → atoi (print_nat pid) ≡ pos pid
atoi-pid pid h = rw append-nil at (atoi-print_nat pid [] refl h)

-- The process id is read back from the hash of every definition, whatever its strings hold, for a
-- process id below 2 ^ 31.
pub hash_to_pid-create_hash :
    (md5 : Md5) (pid : ℕ) (def : ServerDef)
    → pid < 2 ^ 31
    → hash_to_pid (create_hash md5 pid def) ≡ some (pos pid)
unfolding hash_to_pid
hash_to_pid-create_hash md5 pid def h =
    let (u, e) = create_hash-EndsInPid md5 pid def in rw e (ap some (atoi-pid pid h))
