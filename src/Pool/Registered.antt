-- ===== src/Pool/Registered.antt =====
-- `mongo_get_connection_single` keeps the invariant of the registry, and the connection that it
-- returns is registered.
use mongo_hhvm_driver.Base.{ℕ, List, Bool, true, false, none, some, ◌≡◌, sym, ◌∙◌, ap}
use mongo_hhvm_driver.CLib.{Bytes}
use mongo_hhvm_driver.Types.{Connection, ServerDef, ServerOptions}
use mongo_hhvm_driver.Hash.Create.{create_hash}
use mongo_hhvm_driver.Manager.Registry.{
  Manager, connection_find_by_hash, connection_register, blacklist_find_by_hash,
}
use mongo_hhvm_driver.Manager.Invariant.{
  IsRegistry, connection_register-IsRegistry, connection_deregister-IsRegistry,
  blacklist_register-IsRegistry,
}
use mongo_hhvm_driver.Connection.Effect.{Attempt, Run}
use mongo_hhvm_driver.Connection.Create.{connected_or}
use mongo_hhvm_driver.Pool.Effect.{
  Setup, update_connection, destroy_broken, destroy_if, deregister_connection, run_registered,
}
use mongo_hhvm_driver.Pool.Triple.{
  Triple, bind_Triple, return_Triple, get_manager_Triple, set_manager_Triple, on_world_Triple,
  look_at_Triple, run_on_Triple, weaken_Triple,
}
use mongo_hhvm_driver.Connection.Keeps.{Keeps}
use mongo_hhvm_driver.Pool.Handshake.{HasHash, LoginKeepsHash, establish-Keeps}
use mongo_hhvm_driver.Pool.Single.{after_ping, after_establish, after_create}
use mongo_hhvm_driver.Pool.Update.{update_connection-IsRegistry}

module _ {W : Type 0} (setup : Setup W) (gone : List Bytes) where
  pub destroy_broken-Triple :
      (P : Manager → Type 0) (con : Connection) → Triple P (destroy_broken setup con) (λ _. P)
  unfolding destroy_broken
  destroy_broken-Triple P con = on_world_Triple P (λ _. P) _ (λ m h. h)

  destroy_if-Triple :
      (P : Manager → Type 0) (found : Bool) (con : Connection)
      → Triple P (destroy_if setup found con) (λ _. P)
  destroy_if-Triple P false con = return_Triple P (λ _. P) tt (λ m h. h)
  destroy_if-Triple P true con = destroy_broken-Triple P con

  pub deregister_connection-Triple :
      (con : Connection)
      → Triple (IsRegistry gone) (deregister_connection setup con) (λ _. (IsRegistry gone))
  unfolding deregister_connection
  deregister_connection-Triple con =
      get_manager_Triple (IsRegistry gone) (λ _. (IsRegistry gone)) _
        λ m r.
          bind_Triple _ (λ _. (IsRegistry gone)) (λ _. (IsRegistry gone)) _ _
            (set_manager_Triple _ (λ _. (IsRegistry gone)) _
              (λ m' e. connection_deregister-IsRegistry m con r))
            λ stored. destroy_if-Triple (IsRegistry gone) _ con

  pub run_registered_lem :
      {A : Type 0} (P : Manager → Type 0) (R : Connection → Type 0)
      (Q : Connection → Manager → Type 0) (con : Connection) (m : Run W A)
      → Keeps R m
      → R con
      → ((m' : Manager) (con' : Connection) → P m' → R con' → Q con' (update_connection m' con'))
      → Triple P (run_registered setup con m) (λ (r : Attempt A × Connection). Q r.1)
  unfolding run_registered
  run_registered_lem {A} P R Q con m k h step =
      bind_Triple P (λ _. P) (λ (r : Attempt A × Connection). Q r.1) _ _ (look_at_Triple P con.hash)
        λ seen.
          bind_Triple P (λ (r : Attempt A × Connection) m'. P m' × R r.1)
            (λ (r : Attempt A × Connection). Q r.1) _ _ (run_on_Triple P R con m k h)
            λ r. get_manager_Triple _ _ _ λ m' p.
              bind_Triple _ (λ _. Q r.1) _ _ _
                (set_manager_Triple _ (λ _. Q r.1) _ (λ m'' e. step m' r.1 p.0 p.1))
                λ stored. return_Triple _ _ r (λ last q. q)

  pub run_registered-Triple :
      {A : Type 0} (R : Connection → Type 0) (con : Connection) (m : Run W A)
      → Keeps R m
      → R con
      → Triple
          (IsRegistry gone)
          (run_registered setup con m)
          (λ (r : Attempt A × Connection) m'. (IsRegistry gone) m' × R r.1)
  run_registered-Triple R con m k h =
      run_registered_lem (IsRegistry gone) R (λ con' m'. (IsRegistry gone) m' × R con') con m k h
        (λ m' con' r r'. (update_connection-IsRegistry m' con' r, r'))

  module _ (keeps_hash : LoginKeepsHash setup) (options : ServerOptions) (server : ServerDef) where
    abbrev pub own_hash : Bytes
    own_hash = create_hash setup.md5 setup.pid server

    -- A connection that is returned is the registry's for the server.
    abbrev pub IsRegistered : Attempt Connection → Manager → Type 0
    IsRegistered (Attempt.done con) m =
        connection_find_by_hash m (create_hash setup.md5 setup.pid server) ≡ some con
    IsRegistered (Attempt.failed e) m = Unit

    abbrev pub Result : Attempt Connection → Manager → Type 0
    Result r m = (IsRegistry gone) m × IsRegistered r m

    pub after_ping-Triple :
        (r : Attempt (Unit {0}) × Connection)
        → Triple
            (λ m. (IsRegistry gone) m × (connection_find_by_hash m own_hash ≡ some r.1))
            (after_ping setup options r)
            Result
    after_ping-Triple (Attempt.done ok, con) = return_Triple _ Result _ (λ m h. h)
    after_ping-Triple (Attempt.failed e, con) =
        bind_Triple _ (λ _. (IsRegistry gone)) Result _ _
          (weaken_Triple (λ _. (IsRegistry gone)) (deregister_connection-Triple con) (λ m h. h.0))
          λ removed. return_Triple _ Result _ (λ m h. (h, tt))

    -- No connection and no entry of the blacklist has the server's hash.
    abbrev pub IsUnknown : Manager → Type 0
    IsUnknown m =
        (connection_find_by_hash m own_hash ≡ none) × (blacklist_find_by_hash m own_hash ≡ none)

    after_establish-Triple :
        (r : Attempt (Unit {0}) × Connection)
        → HasHash own_hash r.1
        → Triple (λ m. (IsRegistry gone) m × IsUnknown m) (after_establish setup options r) Result
    after_establish-Triple (Attempt.done ok, con) h = get_manager_Triple _ Result _ λ m known.
        let open_con : Connection = record con { connected = true } in
        let same : open_con.hash ≡ own_hash = h in
        let unknown : connection_find_by_hash m open_con.hash ≡ none = rw same known.1.0 in
        let (kept, found) = connection_register-IsRegistry m open_con known.0 unknown in
        bind_Triple _ (λ _ m'. Result (Attempt.done open_con) m') Result _ _
          (set_manager_Triple _ (λ _ m'. Result (Attempt.done open_con) m') _
            (λ m' e. (
              kept,
              ap (connection_find_by_hash (connection_register m open_con)) (sym same) ∙ found,
            )))
          λ registered. return_Triple _ Result _ (λ m' k. k)
    after_establish-Triple (Attempt.failed e, con) h =
        bind_Triple _ (λ _. (IsRegistry gone)) Result _ _
          (weaken_Triple (λ _. (IsRegistry gone)) (destroy_broken-Triple (IsRegistry gone) con)
            (λ m k. k.0))
          λ destroyed. return_Triple _ Result _ (λ m k. (k, tt))

    established :
        (r : Attempt (Unit {0}) × Connection)
        → Triple
            (λ m. ((IsRegistry gone) m × IsUnknown m) × HasHash own_hash r.1)
            (after_establish setup options r)
            Result
    established r = record { holds = λ s k. (after_establish-Triple r k.1).holds s k.0 }

    abbrev pub Created : Attempt Connection → Manager → Type 0
    Created (Attempt.done con) m = ((IsRegistry gone) m × IsUnknown m) × HasHash own_hash con
    Created (Attempt.failed e) m = (IsRegistry gone) m

    pub connected_or-Created :
        (m : Manager) (con : Connection) (r : Attempt ℕ × W)
        → (IsRegistry gone) m
        → IsUnknown m
        → HasHash own_hash con
        → Created (connected_or setup.io m con r).outcome (connected_or setup.io m con r).manager
    unfolding connected_or
    connected_or-Created m con (Attempt.done socket, w) kept unknown h = ((kept, unknown), h)
    connected_or-Created m con (Attempt.failed e, w) kept unknown h =
        blacklist_register-IsRegistry m _ con kept (rw h unknown.1)

    pub after_create-Triple :
        (r : Attempt Connection) → Triple (Created r) (after_create setup options server r) Result
    after_create-Triple (Attempt.failed e) = return_Triple _ Result _ (λ m k. (k, tt))
    after_create-Triple (Attempt.done con) = record {
      holds = λ s k.
          (bind_Triple (λ m. (IsRegistry gone) m × IsUnknown m)
              (λ (r : Attempt (Unit {0}) × Connection) m.
                ((IsRegistry gone) m × IsUnknown m) × HasHash own_hash r.1)
              Result _ _
              (run_on_Triple (λ m. (IsRegistry gone) m × IsUnknown m) (HasHash own_hash) con _
                (establish-Keeps setup keeps_hash options server own_hash) k.1)
              λ r. established r).holds
            s k.0;
    }
