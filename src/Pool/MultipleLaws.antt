-- ===== src/Pool/MultipleLaws.antt =====
-- What `mongo_get_connection_multiple` leaves of the invariant of the registry.
use mongo_hhvm_driver.Base.{
  ℕ, Bool, true, false, ap, ◌&&◌, Option, none, some, List, [], ◌∷◌, refl, Bool-cases, inl, inr,
  ◌==◌,
}
use mongo_hhvm_driver.CLib.{Bytes}
use mongo_hhvm_driver.Types.{Connection, ServerDef, ServerOptions, Servers}
use mongo_hhvm_driver.Manager.Registry.{Manager}
use mongo_hhvm_driver.Manager.Invariant.{IsRegistry}
use mongo_hhvm_driver.Str.{Str}
use mongo_hhvm_driver.Connection.Effect.{Attempt}
use mongo_hhvm_driver.Connection.Discover.{Discovery}
use mongo_hhvm_driver.Connection.Decode.{Code, Ismaster}
use mongo_hhvm_driver.Connection.Frame.{ismaster-Keeps}
use mongo_hhvm_driver.ReadPreference.Sort.{Qsort}
use mongo_hhvm_driver.Pool.Effect.{Setup, Act, return}
use mongo_hhvm_driver.Pool.Handshake.{HasHash, HasHash-IsKept, LoginKeepsHash}
use mongo_hhvm_driver.Pool.Triple.{
  Triple, bind_Triple, lift_Triple, get_manager_Triple, consequence_Triple, set_manager_Triple,
}
use mongo_hhvm_driver.Pool.Registered.{
  destroy_broken-Triple, deregister_connection-Triple, run_registered_lem,
}
use mongo_hhvm_driver.Pool.Update.{update_connection-IsRegistry}
use mongo_hhvm_driver.Pool.Replicaset.{Flags}
use mongo_hhvm_driver.Pool.Multiple.{
  Tally, with_dangling, destroy_registered, judge_visit, check_visit, visit_seeds, pick_near,
  no_candidates, choose_any, after_seeds, get_connection_multiple,
}
use mongo_hhvm_driver.Pool.ReplicasetLaws.{
  just_return, just_lift, forget_others-Triple, single-Triple,
}

-- A registry in which some items may lead to a connection that was freed
abbrev pub Weak : Manager → Type 0
Weak m = (gone : List Bytes) × IsRegistry gone m

abbrev Held : {A : Type 0} → A → Manager → Type 0
Held a = Weak

some_gone :
    {W A : Type 0} {m : Act W A} (P : List Bytes → Manager → Type 0)
    → ((gone : List Bytes) → Triple (P gone) m (λ a. P gone))
    → Triple (λ m. (gone : List Bytes) × P gone m) m (λ a m. (gone : List Bytes) × P gone m)
some_gone P k = record {
  holds = λ s h.
      (consequence_Triple (λ a. P h.0) (λ a m. (gone : List Bytes) × P gone m) (k h.0)
          (λ a m' k'. (h.0, k'))).holds
        s h.1;
}

-- For several servers
module _ {W : Type 0} (setup : Setup W) (keeps_hash : LoginKeepsHash setup)
    (qsort : Qsort Connection) (rand : ℕ) where
  with_dangling-Weak :
      (freed : Bool) (con : Connection) (m : Manager)
      → Weak m
      → Weak (with_dangling setup qsort rand freed con m)
  with_dangling-Weak false con m r = r
  with_dangling-Weak true con m (gone, r) = (
    con.hash ∷ gone,
    record {
      distinct = r.distinct;
      labelled = r.labelled;
      distinct_blacklist = r.distinct_blacklist;
      left_behind = ap (λ l. con.hash ∷ l) r.left_behind;
    },
  )

  destroy_registered-Triple :
      (con : Connection) → Triple Weak (destroy_registered setup qsort rand con) Held
  unfolding destroy_registered
  destroy_registered-Triple con =
      bind_Triple Weak Held Held _ _ (destroy_broken-Triple setup [] Weak con) λ destroyed.
        bind_Triple Weak Held Held _ _ (just_lift Weak _) λ freed.
          get_manager_Triple Weak Held _
            λ m r. set_manager_Triple _ Held _ (λ m' e. with_dangling-Weak freed con m r)

  judge_visit-Triple :
      (con : Connection) (code : Code) (e : Option Bytes) (d : Option Discovery)
      → Triple Weak
          (judge_visit setup qsort rand con
            (record { code = code; error_message = e; discovery = d }))
          Held
  judge_visit-Triple con Code.worked e d = just_return Weak _
  judge_visit-Triple con Code.skipped e d = just_return Weak _
  judge_visit-Triple con Code.unsupported e d =
      bind_Triple Weak Held Held _ _
        (some_gone IsRegistry λ gone. deregister_connection-Triple setup gone con)
        λ removed. just_return Weak _
  judge_visit-Triple con Code.error e d =
      bind_Triple Weak Held Held _ _ (destroy_registered-Triple con) λ destroyed. just_return Weak _
  judge_visit-Triple con Code.renamed e d =
      bind_Triple Weak Held Held _ _ (destroy_registered-Triple con) λ destroyed. just_return Weak _

  visited :
      (r : Attempt Ismaster × Connection)
      → Triple Weak
          (elim r.0 [
            | Attempt.failed e ↦
                return (record { counts = false; unsupported = false; message = e })
            | Attempt.done answer ↦ judge_visit setup qsort rand r.1 answer
          ])
          Held
  visited (Attempt.failed e, con) = just_return Weak _
  visited (Attempt.done answer, con) =
      judge_visit-Triple con answer.code answer.error_message answer.discovery

  check_visit-Triple :
      (options : ServerOptions) (con : Attempt Connection)
      → Triple Weak (check_visit setup qsort rand options con) Held
  check_visit-Triple options (Attempt.failed e) = just_return Weak _
  check_visit-Triple options (Attempt.done con) =
      bind_Triple Weak Held Held _ _
        (run_registered_lem setup [] Weak (HasHash con.hash) (λ _. Weak) con _
          (ismaster-Keeps (HasHash con.hash) setup.io options (HasHash-IsKept con.hash)
            setup.intervals none)
          refl (λ m con' r h. (r.0, update_connection-IsRegistry m con' r.1)))
        visited

  visit_seeds-Triple :
      (options : ServerOptions) (dont_connect : Bool) (servers : List ServerDef) (tally : Tally)
      → Triple Weak (visit_seeds setup qsort rand options dont_connect servers tally) Held
  unfolding visit_seeds
  visit_seeds-Triple options dont_connect [] tally = just_return Weak tally
  visit_seeds-Triple options dont_connect (server ∷ servers) tally =
      bind_Triple Weak Held Held _ _
        (some_gone IsRegistry
          λ gone. single-Triple setup gone keeps_hash qsort rand options server dont_connect)
        λ con. bind_Triple Weak Held Held _ _ (check_visit-Triple options con) λ visit.
          bind_Triple Weak Held Held _ _ (just_lift Weak _)
            (visit_seeds-Triple options dont_connect servers)

  no_candidates-Triple :
      (messages : Str) → Triple Weak (no_candidates setup qsort rand messages) Held
  no_candidates-Triple messages = elim (Bool-cases (messages.l == 0)) [
    | inl empty ↦ rw empty (just_return Weak _)
    | inr filled ↦
        rw filled (bind_Triple Weak Held Held _ _ (just_lift Weak _) λ text. just_return Weak _)
  ]

  pick_near-Triple :
      (servers : Servers) (near : Option (List Connection))
      → Triple Weak (pick_near setup qsort rand servers near) Held
  pick_near-Triple servers none = just_return Weak _
  pick_near-Triple servers (some near) =
      bind_Triple Weak Held Held _ _ (just_lift Weak _) λ con. just_return Weak _

  choose_any-Triple :
      (servers : Servers) (messages : Str) (o : Option (List Connection))
      → Triple Weak (choose_any setup qsort rand servers messages o) Held
  choose_any-Triple servers messages none = no_candidates-Triple messages
  choose_any-Triple servers messages (some []) = no_candidates-Triple messages
  choose_any-Triple servers messages (some (con ∷ candidates)) = pick_near-Triple servers _

  after_seeds-Triple :
      (servers : Servers) (dont_connect : Bool) (tally : Tally)
      → Triple Weak (after_seeds setup qsort rand servers dont_connect tally) Held
  after_seeds-Triple servers dont_connect tally = elim (Bool-cases tally.supported) [
    | inr no_wire ↦ rw no_wire (just_return Weak _)
    | inl wire ↦ rw wire (elim (Bool-cases (tally.found == 0 && dont_connect)) [
      | inl nothing ↦ rw nothing (just_return Weak _)
      | inr some_found ↦ rw some_found (
          get_manager_Triple Weak Held _ λ m r.
            bind_Triple _ Held Held _ _ (lift_Triple _ Held _ (λ a m' e e'. rw e' r)) λ connections.
              bind_Triple _ Held Held _ _ (forget_others-Triple setup _ _ connections) λ forgot.
                bind_Triple _ Held Held _ _ (just_lift Weak _)
                  (choose_any-Triple servers tally.messages))
    ])
  ]

  pub multiple-Triple :
      (servers : Servers) (flags : Flags)
      → Triple Weak (get_connection_multiple setup qsort rand servers flags) Held
  unfolding get_connection_multiple
  multiple-Triple servers flags =
      bind_Triple Weak Held Held _ _
        (visit_seeds-Triple servers.options flags.dont_connect servers.server _)
        (after_seeds-Triple servers flags.dont_connect)
