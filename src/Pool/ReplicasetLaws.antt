-- ===== src/Pool/ReplicasetLaws.antt =====
-- `mongo_get_read_write_connection_replicaset` keeps the invariant of the registry.
use mongo_hhvm_driver.Base.{ℕ, Bool, ◌&&◌, Option, List, [], ◌∷◌, Bool-cases, inl, inr, ◌==◌}
use mongo_hhvm_driver.CLib.{Bytes}
use mongo_hhvm_driver.Types.{Connection, ReadPreference, ServerDef, ServerOptions, Servers}
use mongo_hhvm_driver.Manager.Registry.{Manager}
use mongo_hhvm_driver.Manager.Invariant.{IsRegistry}
use mongo_hhvm_driver.ReadPreference.Sort.{Qsort}
use mongo_hhvm_driver.Pool.Effect.{Setup, return, lift}
use mongo_hhvm_driver.Pool.Forget.{forget_others}
use mongo_hhvm_driver.Pool.Handshake.{LoginKeepsHash}
use mongo_hhvm_driver.Pool.Triple.{
  Triple, bind_Triple, return_Triple, lift_Triple, get_manager_Triple, consequence_Triple,
  on_world_Triple,
}
use mongo_hhvm_driver.Pool.Single.{get_connection_single}
use mongo_hhvm_driver.Pool.SingleLaws.{get_connection_single-Triple}
use mongo_hhvm_driver.Pool.TopologyLaws.{discover_topology-Triple}
use mongo_hhvm_driver.Pool.Topology.{Topology}
use mongo_hhvm_driver.Pool.Replicaset.{
  Flags, counted, connect_seeds, select_supported, get_read_write_connection_replicaset,
}

module _ {W : Type 0} (P : Manager → Type 0) where
  pub just_return : {A : Type 0} (a : A) → Triple {W = W} P (return a) (λ a. P)
  just_return a = return_Triple P (λ a. P) a (λ m r. r)

  pub just_lift : {A : Type 0} (o : Option A) → Triple {W = W} P (lift o) (λ a. P)
  just_lift o = lift_Triple P (λ a. P) o (λ a m e r. r)

pub forget_others-Triple :
    {W : Type 0} (setup : Setup W) (P : Manager → Type 0) (rp : ReadPreference)
    (connections : List Connection)
    → Triple P (forget_others setup rp connections) (λ a. P)
unfolding forget_others
forget_others-Triple setup P rp connections = on_world_Triple P (λ a. P) _ (λ m r. r)

-- For a replica set
module _ {W : Type 0} (setup : Setup W) (gone : List Bytes) (keeps_hash : LoginKeepsHash setup)
    (qsort : Qsort Connection) (rand : ℕ) where
  abbrev Kept : {A : Type 0} → A → Manager → Type 0
  Kept a = IsRegistry gone

  pub single-Triple :
      (options : ServerOptions) (server : ServerDef) (dont_connect : Bool)
      → Triple (IsRegistry gone) (get_connection_single setup options server dont_connect) Kept
  single-Triple options server dont_connect =
      consequence_Triple _ Kept
        (get_connection_single-Triple setup gone keeps_hash options server dont_connect)
        (λ r m k. k.0)

  connect_seeds-Triple :
      (options : ServerOptions) (dont_connect : Bool) (servers : List ServerDef) (n : ℕ)
      → Triple
          (IsRegistry gone)
          (connect_seeds setup qsort rand options dont_connect servers n)
          Kept
  unfolding connect_seeds
  connect_seeds-Triple options dont_connect [] n = just_return (IsRegistry gone) n
  connect_seeds-Triple options dont_connect (server ∷ servers) n =
      bind_Triple (IsRegistry gone) Kept Kept _ _ (single-Triple options server dont_connect)
        λ con. connect_seeds-Triple options dont_connect servers (counted n con)

  select_supported-Triple :
      (flags : Flags) (t : Topology)
      → Triple (IsRegistry gone) (select_supported setup qsort rand flags t) Kept
  select_supported-Triple flags t = elim (Bool-cases t.supported) [
    | inr no_wire ↦ rw no_wire (just_return (IsRegistry gone) _)
    | inl wire ↦ rw wire (
        get_manager_Triple (IsRegistry gone) Kept _ λ m r.
          bind_Triple _ Kept Kept _ _ (lift_Triple _ Kept _ (λ a m' e e'. rw e' r)) λ connections.
            bind_Triple _ Kept Kept _ _ (forget_others-Triple setup _ _ connections)
              λ forgot. bind_Triple _ Kept Kept _ _ (just_lift _ _) λ selection. just_return _ _)
  ]

  pub replicaset-Triple :
      (servers : Servers) (flags : Flags)
      → Triple
          (IsRegistry gone)
          (get_read_write_connection_replicaset setup qsort rand servers flags)
          Kept
  unfolding get_read_write_connection_replicaset
  replicaset-Triple servers flags =
      bind_Triple (IsRegistry gone) Kept Kept _ _
        (connect_seeds-Triple servers.options flags.dont_connect servers.server 0)
        λ found. elim (Bool-cases (found == 0 && flags.dont_connect)) [
          | inl nothing ↦ rw nothing (just_return (IsRegistry gone) _)
          | inr some_found ↦ rw some_found (
              bind_Triple (IsRegistry gone) Kept Kept _ _
                (discover_topology-Triple setup gone keeps_hash servers)
                (select_supported-Triple flags))
        ]
