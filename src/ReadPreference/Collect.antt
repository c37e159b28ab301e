-- ===== src/ReadPreference/Collect.antt =====
-- What `filter_connections` collects and what it hands to `forget`, and what every candidate is.
use mongo_hhvm_driver.Base.{
  >>=-eq-some, some-injective, ℕ, Bool, true, false, not, ◌&&◌, some, List, [], ◌∷◌, ◌≡◌, refl,
  if◌then◌else◌, select, Bool-cases, inl, inr, ap, ◌∙◌,
}
use mongo_hhvm_driver.Base.Int.{ℤ, pos, eqb_ℤ, eqb_ℤ→eq}
use mongo_hhvm_driver.Types.{Connection}
use mongo_hhvm_driver.Hash.Split.{hash_to_pid}
use mongo_hhvm_driver.ReadPreference.Candidates.{has_type, Filtered, sort_out, filter_connections}
use mongo_hhvm_driver.ReadPreference.Sort.{All}

sort_out-select :
    (own fits : Bool) (con : Connection) (k f : List Connection)
    → sort_out own fits con (record { kept = k; forgotten = f }) ≡ record {
      kept = if own && fits then con ∷ k else k;
      forgotten = if not own then con ∷ f else f;
    }
unfolding sort_out
sort_out-select true true con k f = refl
sort_out-select true false con k f = refl
sort_out-select false fits con k f = refl

-- Where every hash has a process id, the connections of this process and of the wanted types are
-- kept, in their order, and exactly those of other processes are forgotten.
pub filter_connections-select :
    (pid types : ℕ) (pid_of : Connection → ℤ) (connections : List Connection)
    → All (λ con. hash_to_pid con.hash ≡ some (pid_of con)) connections
    → filter_connections pid types connections
      ≡ some (record {
        kept =
            select
              (λ con. eqb_ℤ (pid_of con) (pos pid) && has_type types con.connection_type)
              connections;
        forgotten = select (λ con. not (eqb_ℤ (pid_of con) (pos pid))) connections;
      })
unfolding filter_connections
filter_connections-select pid types pid_of [] h = refl
filter_connections-select pid types pid_of (con ∷ connections) h =
    rw (filter_connections-select pid types pid_of connections h.1) (
      rw h.0 (
        ap some (
          sort_out-select (eqb_ℤ (pid_of con) (pos pid)) (has_type types con.connection_type) con _
            _)))

-- A connection of this process, of one of the types.
abbrev pub IsOf : ℕ → ℕ → Connection → Type 0
IsOf pid types con =
    (hash_to_pid con.hash ≡ some (pos pid)) × (has_type types con.connection_type ≡ true)

sort_out-IsOf :
    (pid types : ℕ) (p : ℤ) (con : Connection) (rest : Filtered)
    → hash_to_pid con.hash ≡ some p
    → All (IsOf pid types) rest.kept
    → All
        (IsOf pid types)
        (sort_out (eqb_ℤ p (pos pid)) (has_type types con.connection_type) con rest).kept
unfolding sort_out
sort_out-IsOf pid types p con rest e h = elim (Bool-cases (eqb_ℤ p (pos pid))) [
  | inr other ↦ rw other h
  | inl own ↦ elim (Bool-cases (has_type types con.connection_type)) [
    | inr unfit ↦ rw own (rw unfit h)
    | inl fits ↦ rw own (rw fits ((e ∙ ap some (eqb_ℤ→eq p (pos pid) own), fits), h))
  ]
]

pub filter_connections-IsOf :
    (pid types : ℕ) (connections : List Connection) (f : Filtered)
    → filter_connections pid types connections ≡ some f
    → All (IsOf pid types) f.kept
unfolding filter_connections
filter_connections-IsOf pid types [] f h =
    let same : f ≡ record { kept = []; forgotten = [] } = cc in rw same tt
filter_connections-IsOf pid types (con ∷ connections) f h =
    let (rest, found, h') = >>=-eq-some (filter_connections pid types connections) _ h in
    let (p, has_pid, done) = >>=-eq-some (hash_to_pid con.hash) _ h' in
    rw (← some-injective _ _ done) (
      sort_out-IsOf pid types p con rest has_pid
        (filter_connections-IsOf pid types connections rest found))
