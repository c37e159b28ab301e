-- ===== src/Connection/Sound.antt =====
-- What the return value of `mongo_connection_ismaster` says of the connection, and what a discovery
-- that is accepted says of the replica set.
use mongo_hhvm_driver.Base.{
  true, Option, none, some, ◌≡◌, refl, sym, ap, Sure, Sure-value, >>=-Sure, Bool-cases, inl, inr,
  ◌⊎◌, if◌then◌else◌, is_some,
}
use mongo_hhvm_driver.CLib.{Bytes, codes, str_eq, str_eq_iff, split_at}
use mongo_hhvm_driver.Types.{Connection, ServerDef}
use mongo_hhvm_driver.Hash.Split.{hash_to_server}
use mongo_hhvm_driver.Bson.Fields.{find_as_string}
use mongo_hhvm_driver.Connection.Tags.{read_hosts}
use mongo_hhvm_driver.Connection.Discover.{
  Discovery, Verdict, set_host, rename, check_name, check_set, or_set, settle_names, after_set,
  discover,
}

-- An accepted discovery: the reply names a set, it is the one that the caller expects, if it expects
-- one, and from then on it is the caller's and the server's, if that had none.
abbrev pub IsAccepted : Option Bytes → Discovery → Discovery × Verdict → Type 0
IsAccepted set d (d', Verdict.rejected message) = Unit
IsAccepted set d (d', _) =
    (is_some set ≡ true)
    × ((d.repl_set_name ≡ none) ⊎ (d.repl_set_name ≡ set))
    × (d'.repl_set_name ≡ set)
    × (d'.server.repl_set_name ≡ or_set d.server.repl_set_name set)

abbrev Names : Option Bytes → Discovery → Discovery → Type 0
Names set d d' =
    (is_some set ≡ true)
    × ((d.repl_set_name ≡ none) ⊎ (d.repl_set_name ≡ set))
    × (d'.repl_set_name ≡ set)
    × (d'.server.repl_set_name ≡ or_set d.server.repl_set_name set)

IsAccepted-of :
    (set : Option Bytes) (d d' : Discovery) (v : Verdict)
    → Names set d d'
    → IsAccepted set d (d', v)
IsAccepted-of set d d' (Verdict.rejected message) n = tt
IsAccepted-of set d d' Verdict.same_host n = n
IsAccepted-of set d d' Verdict.renamed n = n

check_set_names :
    (set expected errmsg : Option Bytes)
    → check_set set expected errmsg ≡ none
    → (is_some set ≡ true) × ((expected ≡ none) ⊎ (expected ≡ set)) × (or_set expected set ≡ set)
unfolding check_set
check_set_names none expected errmsg h = cc
check_set_names (some set) none errmsg h = (refl, inl refl, refl)
check_set_names (some set) (some expected) errmsg h = elim (Bool-cases (str_eq set expected)) [
  | inl same ↦
      let equal : set ≡ expected = (str_eq_iff set expected).0 same in
      (refl, inr (ap some (sym equal)), ap some (sym equal))
  | inr other ↦ let no = rw other at h in cc
]

after_set-Sure :
    (buffer : Bytes) (set : Option Bytes) (d d' : Discovery) (v : Verdict) (errmsg : Option Bytes)
    → d'.repl_set_name ≡ d.repl_set_name
    → d'.server.repl_set_name ≡ d.server.repl_set_name
    → (o : Option Bytes) → check_set set d'.repl_set_name errmsg ≡ o
    → Sure (IsAccepted set d) (after_set buffer set d' v o)
after_set-Sure buffer set d d' v errmsg same same' (some message) e = Sure.just _ tt
after_set-Sure buffer set d d' v errmsg same same' none e =
    let (found, expected, named) = check_set_names set d'.repl_set_name errmsg e in
    >>=-Sure (IsAccepted set d) (read_hosts buffer) _ λ hosts e'. Sure.just _ (
      IsAccepted-of set d (record (settle_names set d') { found_hosts = hosts }) v
        (found, rw (← same) expected, named, rw same' refl))

abbrev SameSet : ServerDef → ServerDef × Verdict → Type 0
SameSet server r = r.0.repl_set_name ≡ server.repl_set_name

set_host-Sure :
    (name : Bytes) (server : ServerDef)
    → Sure
        (λ (other : ServerDef). other.repl_set_name ≡ server.repl_set_name)
        (set_host name server)
set_host-Sure name server = >>=-Sure _ (split_at b':' name) _ λ parts e. Sure.just _ refl

rename-Sure :
    (name expected : Bytes) (server : ServerDef)
    → Sure (SameSet server) (rename name expected server)
rename-Sure name expected server = elim (Bool-cases (str_eq name expected)) [
  | inl same ↦ rw same (Sure.just _ refl)
  | inr other ↦ rw other (
      >>=-Sure (SameSet server) (set_host name server) _ λ renamed e.
        Sure.just _ (Sure-value _ (set_host name server) renamed e (set_host-Sure name server)))
]

check_name-Sure :
    (con : Connection) (server : ServerDef) (me : Option Bytes)
    → Sure (SameSet server) (check_name con server me)
check_name-Sure con server none = Sure.just _ refl
check_name-Sure con server (some name) =
    >>=-Sure (SameSet server) (hash_to_server con.hash) _
      λ expected e. rename-Sure name expected server

-- The discovery never accepts a node of another replica set: if it is accepted, the reply names a set,
-- which is the one that the caller expects, if it expects one; and it is the caller's from then on,
-- and the server's, if that had none.
pub discover-IsAccepted :
    (buffer : Bytes) (con : Connection) (set : Option Bytes) (d : Discovery)
    → Sure (IsAccepted set d) (discover buffer con set d)
unfolding discover
discover-IsAccepted buffer con set d =
    >>=-Sure (IsAccepted set d) (find_as_string buffer 4 (codes "me")) _ λ me e.
      >>=-Sure (IsAccepted set d) (check_name con d.server me) _ λ named e'.
        >>=-Sure (IsAccepted set d)
          (if is_some set then some none else find_as_string buffer 4 (codes "errmsg")) _
          λ errmsg e''.
            after_set-Sure buffer set d (record d { server = named.0 }) named.1 errmsg refl
              (Sure-value (SameSet d.server) (check_name con d.server me) named e'
                (check_name-Sure con d.server me))
              (check_set set d.repl_set_name errmsg) refl
