-- ===== src/Pool/Blacklist.antt =====
-- Blacklisted servers: no connection attempt within the interval, and a new one after it.
use mongo_hhvm_driver.Base.{
  ℕ, ◌^◌, ◌<◌, ◌+◌, Bool-cases, inl, inr, Bool, true, false, some, ◌≡◌, refl, arith, ◌↔◌,
}
use mongo_hhvm_driver.Base.Int.{pos, ◌+ℤ◌, ◌≤ℤ◌, to_int_lem}
use mongo_hhvm_driver.CLib.{codes}
use mongo_hhvm_driver.Types.{ServerDef, ServerOptions}
use mongo_hhvm_driver.Hash.Create.{create_hash}
use mongo_hhvm_driver.Manager.Registry.{Blacklisted, Manager, blacklist_find_by_hash}
use mongo_hhvm_driver.Connection.Effect.{Attempt, Time}
use mongo_hhvm_driver.Connection.Ping.{Intervals, is_recent, ping_check}
use mongo_hhvm_driver.Pool.Effect.{Pool, Setup, ◌>>=◌, return, get_manager, now}
use mongo_hhvm_driver.Pool.Single.{get_connection_single}

-- The interval is over exactly when the time of the last attempt and the interval are not above the
-- time now, for a last attempt that fits an `int`.
pub ping_check_iff :
    (intervals : Intervals) (last : ℕ) (start : Time)
    → last < 2 ^ 31
    → (ping_check intervals last start ≡ true)
      ↔ (pos last +ℤ intervals.ping_interval ≤ℤ pos start.sec)
unfolding ping_check is_recent
ping_check_iff intervals last start small =
    rw (to_int_lem (pos last) (small, omega arith)) (λ h. ground arith, λ h. ground arith)

ping_check_early :
    (intervals : Intervals) (last : ℕ) (start : Time)
    → last < 2 ^ 31
    → pos (start.sec + 1) ≤ℤ pos last +ℤ intervals.ping_interval
    → ping_check intervals last start ≡ false
ping_check_early intervals last start small early =
    elim (Bool-cases (ping_check intervals last start)) [
      | inl due ↦
          absurd
            (let over = (ping_check_iff intervals last start small).0 due in ground (arith, over))
      | inr recent ↦ recent
    ]

module _ {W : Type 0} (setup : Setup W) (options : ServerOptions) (server : ServerDef) (s : Pool W)
    (entry : Blacklisted) (start : Time) (w : W)
    (listed : blacklist_find_by_hash s.manager (create_hash setup.md5 setup.pid server)
      ≡ some entry)
    (clock : setup.io.gettimeofday s.world ≡ (start, w)) where
  -- A server that is blacklisted, before the time of its last attempt and the interval have passed, for
  -- a time that fits an int: nothing is done but to look at the clock. No other callback is called, the
  -- manager stays as it is, and the message says why.
  pub get_connection_single_blocked :
      (dont_connect : Bool)
      → entry.last_ping < 2 ^ 31
      → pos (start.sec + 1) ≤ℤ pos entry.last_ping +ℤ setup.intervals.ping_interval
      → get_connection_single setup options server dont_connect s
        ≡ some (
          Attempt.failed (some (codes "Previous connection attempts failed, server blacklisted")),
          record { manager = s.manager; world = w },
        )
  unfolding get_connection_single ◌>>=◌ get_manager now return
  get_connection_single_blocked dont_connect small early =
      rw listed
        (rw clock (rw (ping_check_early setup.intervals entry.last_ping start small early) refl))
