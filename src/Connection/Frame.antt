-- ===== src/Connection/Frame.antt =====
-- What the operations on a connection leave alone, whatever the server answers and however they end.
use mongo_hhvm_driver.Base.{Option, Bool-cases, inl, inr}
use mongo_hhvm_driver.CLib.{Bytes}
use mongo_hhvm_driver.Types.{Connection, ServerOptions}
use mongo_hhvm_driver.Str.{Str}
use mongo_hhvm_driver.Connection.Effect.{Attempt, Time, Io}
use mongo_hhvm_driver.Connection.Keeps.{
  Keeps, bind_Keeps, get_con-Keeps, set_con-Keeps, return-Keeps, lift-Keeps, attempt-Keeps,
  catch-Keeps, call-Keeps, now-Keeps, lift_bind_Keeps,
}
use mongo_hhvm_driver.Connection.Kept.{IsKept, AndKeeps, decode-Sure, store_version-Sure}
use mongo_hhvm_driver.Connection.Send.{receive_data, send_packet}
use mongo_hhvm_driver.Connection.Ping.{Intervals, is_recent, ping_check, do_ping, ping}
use mongo_hhvm_driver.Connection.Discover.{Discovery}
use mongo_hhvm_driver.Connection.Ismaster.{handle_reply, last_check, run_ismaster, ismaster}
use mongo_hhvm_driver.Connection.Buildinfo.{get_server_version}

module _ {W : Type 0} (P : Connection → Type 0) (io : Io W) (options : ServerOptions) where
  receive_data-Keeps : (header : Bytes) → Keeps P (receive_data io options header)
  unfolding receive_data
  receive_data-Keeps header = get_con-Keeps P _ λ con h.
      bind_Keeps P _ _ (attempt-Keeps P _) λ size.
        bind_Keeps P _ _ (call-Keeps P _)
          λ received. bind_Keeps P _ _ (attempt-Keeps P _) λ buffer. attempt-Keeps P _

  -- Sending a packet and reading the reply change nothing in the connection.
  pub send_packet-Keeps : (packet : Str) → Keeps P (send_packet io options packet)
  unfolding send_packet
  send_packet-Keeps packet = bind_Keeps P _ _ (lift-Keeps P _) λ bytes.
      bind_Keeps P _ _ (call-Keeps P _)
        λ sent. bind_Keeps P _ _ (call-Keeps P _) λ header. receive_data-Keeps header

  module _ (kept : IsKept P) (intervals : Intervals) where
    do_ping-Keeps : (start : Time) → Keeps P (do_ping io intervals options start)
    unfolding do_ping
    do_ping-Keeps start = get_con-Keeps P _ λ con h. bind_Keeps P _ _ (lift-Keeps P _) λ packet.
        bind_Keeps P _ _ (set_con-Keeps P _ (kept.reqid con h)) λ counted.
          bind_Keeps P _ _ (send_packet-Keeps packet) λ answer.
            bind_Keeps P _ _ (now-Keeps P io)
              λ end. get_con-Keeps P _ λ asked k. set_con-Keeps P _ (kept.pinged asked _ _ k)

    pub ping-Keeps : Keeps P (ping io intervals options)
    unfolding ping
    ping-Keeps = bind_Keeps P _ _ (now-Keeps P io) λ start. get_con-Keeps P _ λ con h.
        elim (Bool-cases (ping_check intervals con.last_ping start)) [
          | inl old ↦ rw old (do_ping-Keeps start)
          | inr recent ↦ rw recent (return-Keeps P tt)
        ]

    handle_reply-Keeps :
        (start : Time) (d : Option Discovery) (reply : Attempt Bytes)
        → Keeps P (handle_reply io intervals options start d reply)
    handle_reply-Keeps start d (Attempt.failed e) = return-Keeps P _
    handle_reply-Keeps start d (Attempt.done buffer) = get_con-Keeps P _ λ con h.
        lift_bind_Keeps P (AndKeeps P kept) _ _
          (decode-Sure P kept io.supports_wire_version buffer start d con h)
          λ r k. bind_Keeps P _ _ (set_con-Keeps P r.1 k) λ stored. return-Keeps P r.0

    pub ismaster-Keeps : (d : Option Discovery) → Keeps P (ismaster io intervals options d)
    unfolding ismaster run_ismaster
    ismaster-Keeps d = bind_Keeps P _ _ (now-Keeps P io) λ start. get_con-Keeps P _ λ con h.
        elim (Bool-cases (is_recent (last_check con d) intervals.ismaster_interval start)) [
          | inl recent ↦ rw recent (return-Keeps P _)
          | inr old ↦ rw old (
              get_con-Keeps P _ λ con' h'. bind_Keeps P _ _ (lift-Keeps P _) λ packet.
                bind_Keeps P _ _ (set_con-Keeps P _ (kept.reqid con' h')) λ counted.
                  bind_Keeps P _ _ (catch-Keeps P _ (send_packet-Keeps packet))
                    λ reply. handle_reply-Keeps start d reply)
        ]

    pub get_server_version-Keeps : Keeps P (get_server_version io options)
    unfolding get_server_version
    get_server_version-Keeps = get_con-Keeps P _ λ con h.
        bind_Keeps P _ _ (lift-Keeps P _) λ packet.
          bind_Keeps P _ _ (set_con-Keeps P _ (kept.reqid con h)) λ counted.
            bind_Keeps P _ _ (send_packet-Keeps packet) λ buffer. get_con-Keeps P _ λ asked k.
              lift_bind_Keeps P P _ _ (store_version-Sure P kept buffer asked k)
                λ updated l. set_con-Keeps P updated l
