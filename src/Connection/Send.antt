-- ===== src/Connection/Send.antt =====
-- `mongo_connect_send_packet`: a packet is sent, and its reply is read in two parts.
use mongo_hhvm_driver.Base.{
  ℕ, ◌+◌, ◌-◌, ◌/◌, ◌%◌, ◌^◌, Bool, true, false, ◌&&◌, not, Option, none, some, [], ◌∷◌, ◌++◌, ◌==◌,
  ltb, if◌then◌else◌, length, take,
}
use mongo_hhvm_driver.Base.Int.{ℤ, pos, signed32, word32, eqb_ℤ}
use mongo_hhvm_driver.CLib.{Bytes, codes, print_int}
use mongo_hhvm_driver.Types.{Connection, ServerOptions}
use mongo_hhvm_driver.Str.{Str}
use mongo_hhvm_driver.Str.Patch.{contents}
use mongo_hhvm_driver.Bson.Reader.{read_int32}
use mongo_hhvm_driver.Bson.Fields.{find_as_string, find_as_int32}
use mongo_hhvm_driver.Connection.Effect.{Attempt, Io, Run, ◌>>=◌, attempt, lift, get_con, call}

-- MONGO_REPLY_HEADER_SIZE
abbrev pub header_size : ℕ
header_size = 36

abbrev pub timeout : Connection → ServerOptions → ℤ
timeout con options =
    if con.connected then options.socket_timeout_ms else options.connect_timeout_ms

-- snprintf into 256 bytes, the NUL included
abbrev pub in_256 : Bytes → Option Bytes
in_256 message = some (take 255 message)

unfoldable pub short_header : ℕ → Bytes
short_header read =
    codes "send_package: the amount of bytes read ("
    ++ (print_int (pos read) ++ codes ") is less than the header size (36)")

unfoldable pub too_large : ℕ → ℤ → Bytes
too_large data_size max =
    codes "send_package: data corruption: the returned size of the reply ("
    ++ (print_int (signed32 data_size)
        ++ (codes ") is larger than the maximum allowed size (" ++ (print_int max ++ codes ")")))

-- `max_bson_size && data_size > (uint32_t) max_bson_size`
abbrev pub exceeds : ℕ → ℤ → Bool
exceeds data_size max = not (eqb_ℤ max (pos 0)) && ltb (word32 max) data_size

abbrev pub sized : Connection → ℕ → Attempt ℕ
sized con data_size =
    if exceeds data_size con.max_bson_size
    then Attempt.failed (in_256 (too_large data_size con.max_bson_size))
    else Attempt.done data_size

-- The size of the data behind the header, a `uint32_t`
unfoldable pub data_size : Connection → Bytes → Option (Attempt ℕ)
unfolding read_int32 short_header too_large
data_size con header =
    if ltb (length header) header_size
    then some (Attempt.failed (in_256 (short_header (length header))))
    else elim (read_int32 header 0) [
      | none ↦ none
      | some size ↦ some (sized con ((word32 size + (2 ^ 32 - header_size)) % 2 ^ 32))
    ]

-- The flags of the reply, and the one for a query that failed
unfoldable pub has_failed : Bytes → Option Bool
unfolding read_int32
has_failed header = elim (read_int32 header 16) [
  | none ↦ none
  | some flags ↦ some (word32 flags / 2 % 2 == 1)
]

abbrev pub failure_text : Bytes → Option ℤ → Bytes
failure_text err none = codes "send_package: the query returned a failure: " ++ err
failure_text err (some code) =
    codes "send_package: the query returned a failure: "
    ++ (err ++ (codes " (code: " ++ (print_int code ++ codes ")")))

abbrev pub with_code : Bytes → Option (Option ℤ) → Option (Attempt Bytes)
with_code err none = none
with_code err (some code) = some (Attempt.failed (some (failure_text err code)))

abbrev pub query_failure : Bytes → Option (Option Bytes) → Option (Attempt Bytes)
query_failure buffer none = none
query_failure buffer (some none) =
    some (Attempt.failed (some (codes "send_package: the query returned an unknown error")))
query_failure buffer (some (some err)) = with_code err (find_as_int32 buffer 4 (codes "code"))

abbrev pub reply_of : Bytes → Option Bool → Option (Attempt Bytes)
reply_of buffer none = none
reply_of buffer (some false) = some (Attempt.done buffer)
reply_of buffer (some true) = query_failure buffer (find_as_string buffer 4 (codes "$err"))

-- The data of a reply, unless it is the error of a query
unfoldable pub check_reply : Bytes → Bytes → Option (Attempt Bytes)
unfolding has_failed
check_reply header buffer = reply_of buffer (has_failed header)

-- `recv_data(...) <= 0`
abbrev pub not_empty : Bytes → Attempt Bytes
not_empty [] = Attempt.failed none
not_empty (b ∷ bytes) = Attempt.done (b ∷ bytes)

module _ {W : Type 0} (io : Io W) (options : ServerOptions) where
  -- The data behind a header
  unfoldable pub receive_data : Bytes → Run W Bytes
  unfolding check_reply data_size
  receive_data header = do
    con ← get_con
    size ← attempt (data_size con header)
    received ← call (λ con. io.recv_data con options (timeout con options) (signed32 size))
    buffer ← attempt (some (not_empty received))
    attempt (check_reply header buffer)

  -- mongo_connect_send_packet
  unfoldable pub send_packet : Str → Run W Bytes
  unfolding receive_data
  send_packet packet = do
    bytes ← lift (contents packet)
    sent ← call (λ con. io.send con options bytes)
    header ← call (λ con. io.recv_header con options (timeout con options))
    receive_data header
