-- ===== src/Connection/Sasl.antt =====
-- `mongo_connection_authenticate_saslstart` and `mongo_connection_authenticate_saslcontinue`.
use mongo_hhvm_driver.Base.{
  ℕ, ◌-◌, Bool, true, false, Option, none, some, ◌++◌, if◌then◌else◌, length, take,
}
use mongo_hhvm_driver.Base.Int.{ℤ, eqb_ℤ}
use mongo_hhvm_driver.CLib.{Bytes, codes}
use mongo_hhvm_driver.Types.{Mechanism, ServerDef, ServerOptions}
use mongo_hhvm_driver.Bson.Write.{get_reqid}
use mongo_hhvm_driver.Bson.Fields.{
  find_as_string, find_as_stringl, find_as_double, find_as_int32, find_as_bool,
}
use mongo_hhvm_driver.Bson.Packets.{create_saslstart_packet, create_saslcontinue_packet}
use mongo_hhvm_driver.Connection.Effect.{Io, Run, ◌>>=◌, return, fail, lift, get_con, set_con}
use mongo_hhvm_driver.Connection.Send.{send_packet, in_256}
use mongo_hhvm_driver.Connection.Login.{authdb_or_db}
use mongo_hhvm_driver.Connection.Double.{is_positive, to_integer}

-- What the calls hand out; `none` is a variable of the caller that is left as it was.
pub record Step : Type 0 where
  pub conversation_id : Option ℤ
  pub payload : Option (ℤ × Bytes)
  pub done_flag : Option ℕ

sasl_failed : Bytes → Bytes
sasl_failed db = codes "SASL Authentication failed on database '" ++ (db ++ codes "'")

start_message : Bytes → Option Bytes → Option Bytes
start_message db none = some (codes "SASL Authentication failed")
start_message db (some errmsg) = in_256 (sasl_failed db ++ (codes ": " ++ errmsg))

-- The buffer has no room for the NUL, so the last byte of the message is lost.
continue_message : Bytes → Option Bytes → Bytes
continue_message db none = take (length (sasl_failed db) - 1) (sasl_failed db)
continue_message db (some errmsg) =
    let message = sasl_failed db ++ (codes ": " ++ errmsg) in take (length message - 1) message

-- The test of `ok`: a field that is missing passes.
abbrev pub is_refused : Option Bytes → Bool
is_refused none = false
is_refused (some ok) = if is_positive ok then false else true

module _ {W : Type 0} (io : Io W) (options : ServerOptions) where
  -- The message for a refusal; it names `db`, whose NULL is undefined.
  unfoldable pub refuse_start : Bytes → ServerDef → Run W Step
  unfolding find_as_string start_message sasl_failed
  refuse_start buffer def = do
    errmsg ← lift (find_as_string buffer 4 (codes "errmsg"))
    db ← lift (elim errmsg [ none ↦ some (codes "") | some _ ↦ def.db ])
    fail (start_message db errmsg)

  unfoldable pub accept_start : Bytes → Run W Step
  unfolding find_as_int32 find_as_stringl
  accept_start buffer = do
    conversation_id ← lift (find_as_int32 buffer 4 (codes "conversationId"))
    payload ← lift (elim conversation_id [
      | none ↦ some none
      | some _ ↦ find_as_stringl buffer 4 (codes "payload")
    ])
    return (record { conversation_id = conversation_id; payload = payload; done_flag = none })

  abbrev pub start_with : ServerDef → Option Bytes → Bytes → ℤ → Run W Step
  start_with def mechanism payload payload_len = do
    con ← get_con
    database ← lift (authdb_or_db def)
    packet ← lift (create_saslstart_packet con database mechanism payload payload_len)
    counted ← set_con (get_reqid con)
    buffer ← send_packet io options packet
    ok ← lift (find_as_double buffer 4 (codes "ok"))
    if is_refused ok then refuse_start buffer def else accept_start buffer

  -- mongo_connection_authenticate_saslstart
  unfoldable pub saslstart : ServerDef → Option Bytes → Bytes → ℤ → Run W Step
  unfolding create_saslstart_packet get_reqid send_packet find_as_double is_positive refuse_start
      accept_start
  saslstart def mechanism payload payload_len = elim def.mechanism [
    | Mechanism.mongodb_cr ↦
        fail
          (some (codes "Invalid authentication mechanism. Expected SASL mechanism, got MongoDB-CR"))
    | _ ↦ start_with def mechanism payload payload_len
  ]

  unfoldable pub refuse_continue : Bytes → ServerDef → Run W (ℤ × Step)
  unfolding find_as_string continue_message sasl_failed
  refuse_continue buffer def = do
    errmsg ← lift (find_as_string buffer 4 (codes "errmsg"))
    db ← lift def.db
    fail (some (continue_message db errmsg))

  abbrev pub same_conversation : Bytes → ℤ → Option ℤ → Run W Step
  same_conversation buffer expected none =
      return (record { conversation_id = none; payload = none; done_flag = none })
  same_conversation buffer expected (some conversation_id) =
      if eqb_ℤ conversation_id expected
      then (do
        payload ← lift (find_as_stringl buffer 4 (codes "payload"))
        done_flag ← lift (find_as_bool buffer 4 (codes "done"))
        return (record {
          conversation_id = some conversation_id;
          payload = payload;
          done_flag = done_flag;
        }))
      else fail none

  -- The return value is `(int) ok`, and `ok` is not set where the field is missing.
  unfoldable pub accept_continue : Bytes → ℤ → Option Bytes → Run W (ℤ × Step)
  unfolding find_as_int32 find_as_stringl find_as_bool to_integer
  accept_continue buffer expected ok = do
    conversation_id ← lift (find_as_int32 buffer 4 (codes "conversationId"))
    step ← same_conversation buffer expected conversation_id
    value ← lift ok
    result ← lift (to_integer value)
    return (result, step)

  -- mongo_connection_authenticate_saslcontinue: the return value and what is handed out
  unfoldable pub saslcontinue : ServerDef → ℤ → Bytes → ℤ → Run W (ℤ × Step)
  unfolding create_saslcontinue_packet get_reqid send_packet find_as_double is_positive
      refuse_continue accept_continue
  saslcontinue def conversation_id payload payload_len = do
    con ← get_con
    database ← lift def.authdb
    packet ← lift (create_saslcontinue_packet con database conversation_id payload payload_len)
    counted ← set_con (get_reqid con)
    buffer ← send_packet io options packet
    ok ← lift (find_as_double buffer 4 (codes "ok"))
    if is_refused ok then refuse_continue buffer def else accept_continue buffer conversation_id ok
