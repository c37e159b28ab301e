-- ===== src/Connection/Ping.antt =====
-- `mongo_connection_ping_check` and `mongo_connection_ping`.
use mongo_hhvm_driver.Base.{ℕ, ◌*◌, Bool, true, false, if◌then◌else◌}
use mongo_hhvm_driver.Base.Int.{ℤ, pos, ◌+ℤ◌, sub_ℕ, ltb_ℤ, to_int}
use mongo_hhvm_driver.Types.{ServerOptions}
use mongo_hhvm_driver.Bson.Write.{get_reqid}
use mongo_hhvm_driver.Bson.Packets.{create_ping_packet}
use mongo_hhvm_driver.Connection.Effect.{
  Time, Io, Run, ◌>>=◌, return, lift, get_con, set_con, now, quotient,
}
use mongo_hhvm_driver.Connection.Send.{send_packet}

-- ping_interval and ismaster_interval of mongo_con_manager, in seconds
pub record Intervals : Type 0 where
  pub ping_interval : ℤ
  pub ismaster_interval : ℤ

-- Whether the interval since `last`, which is an `int`, is still running
unfoldable pub is_recent : ℤ → ℤ → Time → Bool
is_recent last interval start = ltb_ℤ (pos start.sec) (last +ℤ interval)

-- mongo_connection_ping_check, once the time is read: 0 within the interval
unfoldable pub ping_check : Intervals → ℕ → Time → Bool
unfolding is_recent
ping_check intervals last_ping start =
    if is_recent (to_int (pos last_ping)) intervals.ping_interval start then false else true

-- The milliseconds between two times, as an `int` that is not below 0
unfoldable pub elapsed : Time → Time → ℤ
elapsed start end =
    let ms =
      to_int
        (sub_ℕ (end.sec * 1000) (start.sec * 1000) +ℤ quotient (sub_ℕ end.usec start.usec) 1000) in
    if ltb_ℤ ms (pos 0) then pos 0 else ms

module _ {W : Type 0} (io : Io W) (intervals : Intervals) (options : ServerOptions) where
  -- The packet takes a request number, also where the ping then fails.
  unfoldable pub do_ping : Time → Run W (Unit {0})
  unfolding create_ping_packet get_reqid send_packet elapsed
  do_ping start = do
    con ← get_con
    packet ← lift (create_ping_packet con)
    counted ← set_con (get_reqid con)
    answer ← send_packet io options packet
    end ← now io
    asked ← get_con
    set_con (record asked { last_ping = end.sec; ping_ms = elapsed start end })

  -- mongo_connection_ping
  unfoldable pub ping : Run W (Unit {0})
  unfolding do_ping ping_check
  ping = do
    start ← now io
    con ← get_con
    let run = do_ping start
    if ping_check intervals con.last_ping start then run else return tt
