-- ===== src/Pool/SingleLaws.antt =====
-- `mongo_get_connection_single` as a whole: it keeps the invariant of the registry, and the connection
-- that it returns is registered.
use mongo_hhvm_driver.Base.{
  Bool, true, false, Option, none, some, List, ◌≡◌, refl, sym, ◌∙◌, ap, Bool-cases, inl, inr,
}
use mongo_hhvm_driver.CLib.{Bytes}
use mongo_hhvm_driver.Types.{Connection, ServerDef, ServerOptions}
use mongo_hhvm_driver.Hash.Create.{create_hash}
use mongo_hhvm_driver.Manager.Registry.{
  Blacklisted, Manager, connection_find_by_hash, blacklist_find_by_hash,
}
use mongo_hhvm_driver.Manager.Invariant.{
  IsRegistry, find-IsLabelled, blacklist_deregister-IsRegistry,
}
use mongo_hhvm_driver.Connection.Effect.{Attempt}
use mongo_hhvm_driver.Connection.Create.{fresh, create}
use mongo_hhvm_driver.Connection.Frame.{ping-Keeps}
use mongo_hhvm_driver.Connection.Ping.{ping_check}
use mongo_hhvm_driver.Pool.Effect.{Pool, Setup, update_connection}
use mongo_hhvm_driver.Pool.Handshake.{HasHash, HasHash-IsKept, LoginKeepsHash}
use mongo_hhvm_driver.Pool.Single.{
  check_blacklisted, connect_known, connect_if, get_connection_single,
}
use mongo_hhvm_driver.Pool.Triple.{
  Triple, bind_Triple, return_Triple, get_manager_Triple, set_manager_Triple, now_Triple,
  make_Triple,
}
use mongo_hhvm_driver.Pool.Update.{update_connection-IsRegistry, find-update_connection}
use mongo_hhvm_driver.Pool.Registered.{
  run_registered_lem, Result, IsUnknown, Created, after_ping-Triple, connected_or-Created,
  after_create-Triple,
}

module _ {W : Type 0} (setup : Setup W) (gone : List Bytes) (keeps_hash : LoginKeepsHash setup)
    (options : ServerOptions) (server : ServerDef) where
  abbrev own : Bytes
  own = create_hash setup.md5 setup.pid server

  abbrev Judged : Attempt Connection → Manager → Type 0
  Judged = Result setup gone keeps_hash options server

  abbrev IsOpen : Manager → Type 0
  IsOpen m = (IsRegistry gone) m × (blacklist_find_by_hash m own ≡ none)

  known_hash :
      (m : Manager) (con : Connection)
      → (IsRegistry gone) m
      → connection_find_by_hash m own ≡ some con
      → con.hash ≡ own
  unfolding connection_find_by_hash
  known_hash m con r e = find-IsLabelled m.connections own con r.labelled e

  create-Created :
      (m : Manager) (w : W)
      → (IsRegistry gone) m
      → IsUnknown setup gone keeps_hash options server m
      → Created setup gone keeps_hash options server
          (create setup.io m own server options w).outcome
          (create setup.io m own server options w).manager
  unfolding create fresh
  create-Created m w r u =
      let (number, w') = setup.io.rand w in
      connected_or-Created setup gone keeps_hash options server m (fresh number own)
        (setup.io.connect server options w') r u refl

  update_known :
      (con : Connection) (m : Manager) (con' : Connection)
      → IsOpen m × (connection_find_by_hash m own ≡ some con)
      → con'.hash ≡ own
      → (IsRegistry gone) (update_connection m con')
        × (connection_find_by_hash (update_connection m con') own ≡ some con')
  update_known con m con' p h = (
    update_connection-IsRegistry m con' p.0.0,
    ap (connection_find_by_hash (update_connection m con')) (sym h)
        ∙ find-update_connection m con' con (ap (connection_find_by_hash m) h ∙ p.1),
  )

  connect_known-Triple :
      (dont_connect : Bool) (o : Option Connection)
      → Triple
          (λ m. IsOpen m × (connection_find_by_hash m own ≡ o))
          (connect_known setup options server own dont_connect o)
          Judged
  connect_known-Triple true none = return_Triple _ Judged _ (λ m k. (k.0.0, tt))
  connect_known-Triple true (some con) = return_Triple _ Judged _ (λ m k. (k.0.0, k.1))
  connect_known-Triple false (some con) = record {
    holds = λ s k.
        (bind_Triple (λ m. IsOpen m × (connection_find_by_hash m own ≡ some con))
            (λ (r : Attempt (Unit {0}) × Connection) m.
              (IsRegistry gone) m × (connection_find_by_hash m own ≡ some r.1))
            Judged _ _
            (run_registered_lem setup gone _ (HasHash own)
              (λ con' m. (IsRegistry gone) m × (connection_find_by_hash m own ≡ some con')) con _
              (ping-Keeps (HasHash own) setup.io options (HasHash-IsKept own) setup.intervals)
              (known_hash s.manager con k.0.0 k.1) (update_known con))
            (after_ping-Triple setup gone keeps_hash options server)).holds
          s k;
  }
  connect_known-Triple false none =
      bind_Triple _ (Created setup gone keeps_hash options server) Judged _ _
        (make_Triple _ (Created setup gone keeps_hash options server) _
          (λ m w k. create-Created m w k.0.0 (k.1, k.0.1)))
        (after_create-Triple setup gone keeps_hash options server)

  abbrev Checked : Bool → Manager → Type 0
  Checked true m = IsOpen m
  Checked false m = (IsRegistry gone) m

  check_blacklisted-Triple :
      (o : Option Blacklisted)
      → Triple
          (λ m. (IsRegistry gone) m × (blacklist_find_by_hash m own ≡ o))
          (check_blacklisted setup options own o)
          Checked
  check_blacklisted-Triple none = return_Triple _ Checked true (λ m k. k)
  check_blacklisted-Triple (some entry) =
      bind_Triple _ (λ _ m. (IsRegistry gone) m × (blacklist_find_by_hash m own ≡ some entry))
        Checked _ _ (now_Triple _ setup.io)
        λ start. get_manager_Triple _ Checked _ λ m k.
          elim (Bool-cases (ping_check setup.intervals entry.last_ping start)) [
            | inl old ↦ rw old (
                bind_Triple _ (λ _. IsOpen) Checked _ _
                  (set_manager_Triple _ (λ _. IsOpen) _
                    (λ m' e. blacklist_deregister-IsRegistry m own k.0))
                  λ removed. return_Triple _ Checked true (λ m' l. l))
            | inr recent ↦ rw recent (return_Triple _ Checked false (λ m' e. rw e k.0))
          ]

  connect_if-Triple :
      (dont_connect : Bool) (open_now : Bool)
      → Triple (Checked open_now) (connect_if setup options server own dont_connect open_now) Judged
  connect_if-Triple dont_connect false = return_Triple _ Judged _ (λ m k. (k, tt))
  connect_if-Triple dont_connect true = get_manager_Triple _ Judged _ λ m k. record {
    holds = λ s e.
        (connect_known-Triple dont_connect (connection_find_by_hash m own)).holds s
          (rw e k, rw e refl);
  }

  pub get_connection_single-Triple :
      (dont_connect : Bool)
      → Triple (IsRegistry gone) (get_connection_single setup options server dont_connect) Judged
  unfolding get_connection_single
  get_connection_single-Triple dont_connect = get_manager_Triple (IsRegistry gone) Judged _ λ m r.
      bind_Triple _ Checked Judged _ _
        (record {
          holds = λ s e.
              (check_blacklisted-Triple (blacklist_find_by_hash m own)).holds s (rw e r, rw e refl);
        })
        λ open_now. connect_if-Triple dont_connect open_now
