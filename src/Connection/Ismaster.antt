-- ===== src/Connection/Ismaster.antt =====
-- `mongo_connection_ismaster`.
use mongo_hhvm_driver.Base.{Option, none, some, if◌then◌else◌}
use mongo_hhvm_driver.Base.Int.{ℤ}
use mongo_hhvm_driver.CLib.{Bytes}
use mongo_hhvm_driver.Types.{Connection, ServerOptions}
use mongo_hhvm_driver.Bson.Write.{get_reqid}
use mongo_hhvm_driver.Bson.Packets.{create_ismaster_packet}
use mongo_hhvm_driver.Connection.Effect.{
  Attempt, Time, Io, Run, ◌>>=◌, return, lift, get_con, set_con, catch, now,
}
use mongo_hhvm_driver.Connection.Send.{send_packet}
use mongo_hhvm_driver.Connection.Ping.{Intervals, is_recent}
use mongo_hhvm_driver.Connection.Discover.{Discovery}
use mongo_hhvm_driver.Connection.Decode.{Code, Ismaster, decode}

-- The time of the last check: with a server, the last complete one counts
abbrev pub last_check : Connection → Option Discovery → ℤ
last_check con none = con.last_ismaster
last_check con (some d) = con.last_replcheck

module _ {W : Type 0} (io : Io W) (intervals : Intervals) (options : ServerOptions) where
  abbrev pub handle_reply : Time → Option Discovery → Attempt Bytes → Run W Ismaster
  handle_reply start d (Attempt.failed e) =
      return (record { code = Code.error; error_message = e; discovery = d })
  handle_reply start d (Attempt.done buffer) = do
    con ← get_con
    (result, updated) ← lift (decode io.supports_wire_version buffer start d con)
    stored ← set_con updated
    return result

  unfoldable pub run_ismaster : Time → Option Discovery → Run W Ismaster
  unfolding create_ismaster_packet get_reqid send_packet decode
  run_ismaster start d = do
    con ← get_con
    packet ← lift (create_ismaster_packet con)
    counted ← set_con (get_reqid con)
    reply ← catch (send_packet io options packet)
    handle_reply start d reply

  -- mongo_connection_ismaster; `none` for a NULL server
  unfoldable pub ismaster : Option Discovery → Run W Ismaster
  unfolding is_recent run_ismaster
  ismaster d = do
    start ← now io
    con ← get_con
    let run = run_ismaster start d
    if is_recent (last_check con d) intervals.ismaster_interval start
        then return (record { code = Code.skipped; error_message = none; discovery = d })
        else run
