-- ===== src/Pool/Multiple.antt =====
-- `mongo_get_connection_multiple`: a connection to any of the servers, with the messages of those
-- that failed.
use mongo_hhvm_driver.Base.{
  ℕ, ◌+◌, Bool, true, false, ◌&&◌, Option, none, some, List, [], ◌∷◌, if◌then◌else◌, ◌==◌,
}
use mongo_hhvm_driver.CLib.{Bytes, codes}
use mongo_hhvm_driver.Types.{RpType, Connection, ServerDef, ServerOptions, Servers}
use mongo_hhvm_driver.Str.{Str, init}
use mongo_hhvm_driver.Str.Patch.{contents}
use mongo_hhvm_driver.Manager.Registry.{Manager}
use mongo_hhvm_driver.Connection.Create.{is_freed}
use mongo_hhvm_driver.Connection.Effect.{Attempt}
use mongo_hhvm_driver.Connection.Decode.{Code, Ismaster}
use mongo_hhvm_driver.Connection.Ismaster.{ismaster}
use mongo_hhvm_driver.ReadPreference.Sort.{Qsort, sort_servers}
use mongo_hhvm_driver.ReadPreference.Find.{find_candidate_servers}
use mongo_hhvm_driver.ReadPreference.Pick.{select_nearest_servers, pick_server_from_set}
use mongo_hhvm_driver.ReadPreference.Select.{all_of}
use mongo_hhvm_driver.Pool.Effect.{
  Setup, Act, ◌>>=◌, return, lift, get_manager, destroy_broken, deregister_connection,
  run_registered, registered, set_manager,
}
use mongo_hhvm_driver.Pool.Message.{add_failure}
use mongo_hhvm_driver.Pool.Single.{get_connection_single}
use mongo_hhvm_driver.Pool.Replicaset.{Flags}
use mongo_hhvm_driver.Pool.Forget.{forget_others}

-- The local variables of the first loop
pub record Tally : Type 0 where
  pub found : ℕ
  pub supported : Bool
  pub messages : Str

-- Whether a connection is counted, and the message if not
pub record Visit : Type 0 where
  pub counts : Bool
  pub unsupported : Bool
  pub message : Option Bytes

module _ {W : Type 0} (setup : Setup W) (qsort : Qsort Connection) (rand : ℕ) where
  abbrev pub with_dangling : Bool → Connection → Manager → Manager
  with_dangling false con manager = manager
  with_dangling true con manager = record manager { dangling = con.hash ∷ manager.dangling }

  -- A connection is destroyed while its item stays in the registry.
  unfoldable pub destroy_registered : Connection → Act W (Unit {0})
  unfolding destroy_broken is_freed
  destroy_registered con = do
    destroyed ← destroy_broken setup con
    freed ← lift (is_freed setup.pid con)
    manager ← get_manager
    set_manager (with_dangling freed con manager)

  -- A connection whose wire version is not supported is deregistered, on another error it is
  -- destroyed.
  abbrev pub judge_visit : Connection → Ismaster → Act W Visit
  judge_visit con answer = elim answer.code [
    | Code.worked ↦ return (record { counts = true; unsupported = false; message = none })
    | Code.skipped ↦ return (record { counts = true; unsupported = false; message = none })
    | Code.unsupported ↦ do
      removed ← deregister_connection setup con
      return (record { counts = false; unsupported = true; message = answer.error_message })
    | _ ↦ do
      destroyed ← destroy_registered con
      return (record { counts = false; unsupported = false; message = answer.error_message })
  ]

  abbrev pub check_visit : ServerOptions → Attempt Connection → Act W Visit
  check_visit options (Attempt.failed e) =
      return (record { counts = false; unsupported = false; message = e })
  check_visit options (Attempt.done con) = do
    (result, con') ← run_registered setup con (ismaster setup.io setup.intervals options none)
    elim result [
      | Attempt.failed e ↦ return (record { counts = false; unsupported = false; message = e })
      | Attempt.done answer ↦ judge_visit con' answer
    ]

  -- A failure leaves a message, unless no connection was to be made.
  abbrev pub tally_failure : ServerDef → Bool → Tally → Visit → Option Tally
  tally_failure server dont_connect tally visit =
      if visit.counts
      then some (record tally { found = tally.found + 1 })
      else elim (if dont_connect
          then some tally.messages
          else add_failure tally.messages server visit.message) [
            | none ↦ none
            | some messages ↦ some (record tally {
              supported = if visit.unsupported then false else tally.supported;
              messages = messages;
            })
          ]

  unfoldable pub visit_seeds : ServerOptions → Bool → List ServerDef → Tally → Act W Tally
  unfolding get_connection_single run_registered ismaster deregister_connection destroy_registered
      add_failure
  visit_seeds options dont_connect [] tally = return tally
  visit_seeds options dont_connect (server ∷ servers) tally =
      get_connection_single setup options server dont_connect >>= λ con.
      check_visit options con >>= λ visit.
      lift (tally_failure server dont_connect tally visit)
      >>= visit_seeds options dont_connect servers

  -- The choice among the candidates: NULL if the read preference is none that is known.
  abbrev pub pick_near : Servers → Option (List Connection) → Act W (Attempt Connection)
  pick_near servers none = return (Attempt.failed (some (codes "No server near us")))
  pick_near servers (some near) =
      lift (pick_server_from_set rand near servers.read_pref.type) >>= λ con.
      return (Attempt.done con)

  abbrev pub near_servers : Servers → List Connection → Option (List Connection)
  near_servers servers candidates = elim (sort_servers qsort candidates servers.read_pref.type) [
    | none ↦ none
    | some sorted ↦
        select_nearest_servers sorted servers.options.secondary_acceptable_latency_ms
          servers.read_pref.type
  ]

  abbrev pub no_candidates : Str → Act W (Attempt Connection)
  no_candidates messages =
      if messages.l == 0
      then return (Attempt.failed (some (codes "No candidate servers found")))
      else lift (contents messages) >>= λ text. return (Attempt.failed (some text))

  abbrev pub choose_any : Servers → Str → Option (List Connection) → Act W (Attempt Connection)
  choose_any servers messages none = no_candidates messages
  choose_any servers messages (some []) = no_candidates messages
  choose_any servers messages (some (con ∷ candidates)) =
      pick_near servers (near_servers servers (con ∷ candidates))

  abbrev pub after_seeds : Servers → Bool → Tally → Act W (Attempt Connection)
  after_seeds servers dont_connect tally =
      let choose = get_manager >>= λ manager. lift (registered manager) >>= λ connections.
      forget_others setup (all_of RpType.any) connections >>= λ forgot.
      lift (find_candidate_servers setup.md5 setup.pid connections (all_of RpType.any) servers)
      >>= choose_any servers tally.messages in
      if tally.supported
      then if tally.found == 0 && dont_connect then return (Attempt.failed none) else choose
      else return (
          Attempt.failed (
            some (
              codes
                "Found a server running unsupported wire version. Please upgrade the driver, or take the server out of rotation")))

  -- mongo_get_connection_multiple
  unfoldable pub get_connection_multiple : Servers → Flags → Act W (Attempt Connection)
  unfolding visit_seeds forget_others find_candidate_servers sort_servers select_nearest_servers
      pick_server_from_set contents
  get_connection_multiple servers flags =
      visit_seeds servers.options flags.dont_connect servers.server
        (record { found = 0; supported = true; messages = init })
      >>= after_seeds servers flags.dont_connect
