-- ===== src/Pool/Destroyed.antt =====
-- A registered connection whose isMaster fails, in `mongo_get_connection_multiple`: it is destroyed, and
-- its item stays.
use mongo_hhvm_driver.Base.{
  ℕ, Bool, true, false, Option, none, some, [], ◌∷◌, ◌≡◌, refl, ◌==◌, arith,
}
use mongo_hhvm_driver.Base.Int.{pos, eqb_ℤ}
use mongo_hhvm_driver.CLib.{Bytes}
use mongo_hhvm_driver.Types.{Connection, ServerDef, Servers}
use mongo_hhvm_driver.Hash.Create.{create_hash}
use mongo_hhvm_driver.Hash.Split.{hash_to_pid}
use mongo_hhvm_driver.Manager.Registry.{connection_find_by_hash, blacklist_find_by_hash}
use mongo_hhvm_driver.Connection.Effect.{Attempt, Session}
use mongo_hhvm_driver.Connection.Create.{destroy, is_freed, run_callbacks, broken}
use mongo_hhvm_driver.Connection.Decode.{Code}
use mongo_hhvm_driver.Connection.Ismaster.{ismaster}
use mongo_hhvm_driver.ReadPreference.Sort.{Qsort}
use mongo_hhvm_driver.Pool.Effect.{
  Pool, Setup, ◌>>=◌, return, lift, get_manager, set_manager, on_world, run_on, is_dangling,
  look_at, registered, update_connection, destroy_broken, run_registered,
}
use mongo_hhvm_driver.Pool.Single.{get_connection_single}
use mongo_hhvm_driver.Pool.Multiple.{destroy_registered, visit_seeds, get_connection_multiple}

eqb_ℤ_refl : (n : ℕ) → eqb_ℤ (pos n) (pos n) ≡ true
eqb_ℤ_refl n = ground arith

-- For a server that is not blacklisted and whose connection is registered and was not freed: where
-- isMaster fails on the connection, which this process opened, a call for this server alone and with the
-- flag for no new connections closes the connection, runs its callbacks and returns NULL; but its
-- item stays in the registry and leads to the connection that was freed, so that a loop over the
-- registered connections is undefined then.
pub get_connection_multiple_dangles :
    {W : Type 0} (setup : Setup W) (qsort : Qsort Connection) (rand : ℕ) (server : ServerDef)
    (servers : Servers) (write dont_filter : Bool) (s : Pool W) (con : Connection)
    (e : Option Bytes) (session : Session W)
    → servers.server ≡ server ∷ []
    → blacklist_find_by_hash s.manager (create_hash setup.md5 setup.pid server) ≡ none
    → connection_find_by_hash s.manager (create_hash setup.md5 setup.pid server) ≡ some con
    → is_dangling s.manager.dangling con.hash ≡ false
    → ismaster setup.io setup.intervals servers.options none (record { con = con; world = s.world })
      ≡ some (
        Attempt.done (record { code = Code.error; error_message = e; discovery = none }),
        session,
      )
    → hash_to_pid session.con.hash ≡ some (pos setup.pid)
    → (session.con.socket == 0) ≡ false
    → (s' : Pool W) × (get_connection_multiple setup qsort rand servers
          (record { write = write; dont_connect = true; dont_filter = dont_filter })
          s
        ≡ some (Attempt.failed none, s'))
      × (s'.manager.dangling ≡ session.con.hash ∷ s.manager.dangling)
      × (s'.manager.connections ≡ (update_connection s.manager session.con).connections)
      × (s'.world
          ≡ run_callbacks setup.io session.con.cleanup_list
              (setup.io.close session.con broken session.world))
      × (registered s'.manager ≡ none)
unfolding get_connection_multiple visit_seeds get_connection_single run_registered
    destroy_registered destroy_broken destroy is_freed ◌>>=◌ return lift get_manager set_manager
    on_world run_on look_at update_connection
get_connection_multiple_dangles setup qsort rand server servers write dont_filter s con e session
      one listed known there fails own live =
    rw one (
      rw listed (
        rw known (
          rw there (
            rw fails
              (rw own (rw (eqb_ℤ_refl setup.pid) (rw live (_, refl, refl, refl, refl, refl))))))))
