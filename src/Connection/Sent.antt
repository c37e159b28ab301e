-- ===== src/Connection/Sent.antt =====
-- What a reply went through that `mongo_connect_send_packet` hands out.
use mongo_hhvm_driver.Base.{ℕ, ◌≤◌, false, some, ◌≡◌, length, ◌<◌, ◌+◌, ◌^◌, ◌%◌}
use mongo_hhvm_driver.Base.Int.{ℤ, signed32, word32}
use mongo_hhvm_driver.CLib.{Bytes}
use mongo_hhvm_driver.Types.{Connection, ServerOptions}
use mongo_hhvm_driver.Str.{Str}
use mongo_hhvm_driver.Str.Patch.{contents}
use mongo_hhvm_driver.Bson.Reader.{read_int32}
use mongo_hhvm_driver.Connection.Effect.{Attempt, Io}
use mongo_hhvm_driver.Connection.Send.{header_size, timeout, exceeds, has_failed}

-- The header's first word, as a `uint32_t`, counts the header and the data behind it, modulo 2 ^ 32.
abbrev pub IsAnnounced : Bytes → ℕ → Type 0
IsAnnounced header size =
    (word : ℤ) × (read_int32 header 0 ≡ some word)
    × ((size + 36) % 2 ^ 32 ≡ word32 word)
    × (size < 2 ^ 32)

-- What was read for the reply: a header, and the data behind it
pub record IsReply {W : Type 0} (io : Io W) (options : ServerOptions) (con : Connection)
    (before : W) (buffer : Bytes) (final : W) : Type 0 where
  pub header : Bytes
  pub size : ℕ
  pub between : W
  pub read_header :
      io.recv_header con options (timeout con options) before ≡ (Attempt.done header, between)
  pub whole : header_size ≤ length header
  pub announced : IsAnnounced header size
  pub limited : exceeds size con.max_bson_size ≡ false
  pub read_data :
      io.recv_data con options (timeout con options) (signed32 size) between
      ≡ (Attempt.done buffer, final)
  pub some_data : 0 < length buffer
  pub no_failure : has_failed header ≡ some false

-- What went to the server, and the reply that came back
pub record IsExchange {W : Type 0} (io : Io W) (options : ServerOptions) (packet : Str)
    (con : Connection) (start : W) (buffer : Bytes) (final : W) : Type 0 where
  pub bytes : Bytes
  pub answer : Unit
  pub after : W
  pub whole_packet : contents packet ≡ some bytes
  pub send : io.send con options bytes start ≡ (Attempt.done answer, after)
  pub reply : IsReply io options con after buffer final
