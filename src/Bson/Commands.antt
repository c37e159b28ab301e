-- ===== src/Bson/Commands.antt =====
-- The packets of src/mcon/mini_bson.c, one by one: the document of each command.
use mongo_hhvm_driver.Base.{◌+◌, Option, none, some, [], ◌++◌, ◌≡◌, length, ◌<◌, arith}
use mongo_hhvm_driver.Base.Int.{ℤ, pos}
use mongo_hhvm_driver.CLib.{Bytes, codes}
use mongo_hhvm_driver.Types.{Connection}
use mongo_hhvm_driver.Str.{Str}
use mongo_hhvm_driver.Str.Append.{Holds, str_limit}
use mongo_hhvm_driver.Bson.Write.{int_bytes, int64_bytes, add_long, get_reqid}
use mongo_hhvm_driver.Bson.Packets.{
  command_ns, create_ping_packet, create_ismaster_packet, create_buildinfo_packet,
  create_rs_status_packet, create_getnonce_packet, authenticate_fields, create_authenticate_packet,
  saslstart_fields, create_saslstart_packet, saslcontinue_fields, create_saslcontinue_packet,
}
use mongo_hhvm_driver.Bson.Written.{
  Writes, seq_Writes, field, string_field, optional_field, add_int32-Writes, add_long-Writes,
  add_stringl-Writes, add_string-Writes, add_optional-Writes,
}
use mongo_hhvm_driver.Bson.Sealed.{print_query, create_packet-Holds}

-- The packet is made, and holds a query with this namespace and the fields.
abbrev pub IsQuery : Connection → Option Bytes → Bytes → Option Str → Type 0
IsQuery con ns fields packet =
    (xs : Str) × (packet ≡ some xs) × Holds xs (print_query (get_reqid con).last_reqid ns fields)

abbrev pub long_field : Bytes → Bytes
long_field name = field 18 name (int64_bytes (pos 1))

-- The commands with no argument: each packet is a query to admin.$cmd with the command's name and the
-- number 1, and every length in it is right.
pub simple_commands-IsQuery :
    (con : Connection)
    → IsQuery con none (long_field (codes "ping")) (create_ping_packet con)
      × IsQuery con none (long_field (codes "isMaster")) (create_ismaster_packet con)
      × IsQuery con none (long_field (codes "buildInfo")) (create_buildinfo_packet con)
      × IsQuery con none (long_field (codes "replSetGetStatus")) (create_rs_status_packet con)
      × IsQuery con none (long_field (codes "getnonce")) (create_getnonce_packet con)
unfolding create_ping_packet create_ismaster_packet create_buildinfo_packet create_rs_status_packet
    create_getnonce_packet
simple_commands-IsQuery con =
    let one : (name : Bytes) → Writes (add_long name (pos 1)) (long_field name) =
      λ name. add_long-Writes name (pos 1) in
    (
      create_packet-Holds con none _ _ (one (codes "ping")) (omega arith),
      create_packet-Holds con none _ _ (one (codes "isMaster")) (omega arith),
      create_packet-Holds con none _ _ (one (codes "buildInfo")) (omega arith),
      create_packet-Holds con none _ _ (one (codes "replSetGetStatus")) (omega arith),
      create_packet-Holds con none _ _ (one (codes "getnonce")) (omega arith),
    )

abbrev pub authenticate_document : Option Bytes → Bytes → Option Bytes → Option Bytes → Bytes
authenticate_document mechanism username nonce key =
    long_field (codes "authenticate")
    ++ (string_field (codes "user") username
        ++ (optional_field (codes "nonce") nonce
            ++ (optional_field (codes "key") key ++ optional_field (codes "mechanism") mechanism)))

authenticate_fields-Writes :
    (mechanism : Option Bytes) (username : Bytes) (nonce key : Option Bytes)
    → Writes
        (authenticate_fields mechanism username nonce key)
        (authenticate_document mechanism username nonce key)
unfolding authenticate_fields
authenticate_fields-Writes mechanism username nonce key =
    seq_Writes _ _ (long_field (codes "authenticate")) _
      (add_long-Writes (codes "authenticate") (pos 1))
      (seq_Writes _ _ (string_field (codes "user") username) _
        (add_string-Writes (codes "user") username)
        (seq_Writes _ _ (optional_field (codes "nonce") nonce) _
          (add_optional-Writes (codes "nonce") nonce)
          (seq_Writes _ _ (optional_field (codes "key") key) _
            (add_optional-Writes (codes "key") key)
            (add_optional-Writes (codes "mechanism") mechanism))))

-- Where it has fewer than 2 ^ 30 - 512 bytes, the authenticate packet is a query to the database's commands with the user and those of nonce, key
-- and mechanism that are not NULL, in this order, and every length in it is right.
pub create_authenticate_packet-IsQuery :
    (con : Connection) (mechanism : Option Bytes) (database username : Bytes)
    (nonce key : Option Bytes)
    → length (
        print_query
          (get_reqid con).last_reqid
          (some (command_ns database))
          (authenticate_document mechanism username nonce key))
      < str_limit
    → IsQuery con
        (some (command_ns database))
        (authenticate_document mechanism username nonce key)
        (create_authenticate_packet con mechanism database username nonce key)
unfolding create_authenticate_packet
create_authenticate_packet-IsQuery con mechanism database username nonce key short =
    create_packet-Holds con (some (command_ns database)) _ _
      (authenticate_fields-Writes mechanism username nonce key) short

abbrev pub saslstart_document : Option Bytes → Bytes → Bytes
saslstart_document (some mechanism) payload =
    long_field (codes "saslStart")
    ++ (string_field (codes "mechanism") mechanism
        ++ (string_field (codes "payload") payload ++ long_field (codes "autoAuthorize")))
saslstart_document none payload =
    long_field (codes "saslStart")
    ++ (string_field (codes "mechanism") (codes "What-Do-You-Support?")
        ++ (string_field (codes "payload") [] ++ long_field (codes "autoAuthorize")))

saslstart_fields-Writes :
    (mechanism : Option Bytes) (payload : Bytes)
    → Writes
        (saslstart_fields mechanism payload (pos (length payload + 1)))
        (saslstart_document mechanism payload)
unfolding saslstart_fields
saslstart_fields-Writes (some mechanism) payload =
    seq_Writes _ _ (long_field (codes "saslStart")) _ (add_long-Writes (codes "saslStart") (pos 1))
      (seq_Writes _ _ (string_field (codes "mechanism") mechanism) _
        (add_string-Writes (codes "mechanism") mechanism)
        (seq_Writes _ _ (string_field (codes "payload") payload) _
          (add_stringl-Writes (codes "payload") payload (pos (length payload + 1)))
          (add_long-Writes (codes "autoAuthorize") (pos 1))))
saslstart_fields-Writes none payload =
    seq_Writes _ _ (long_field (codes "saslStart")) _ (add_long-Writes (codes "saslStart") (pos 1))
      (seq_Writes _ _ (string_field (codes "mechanism") (codes "What-Do-You-Support?")) _
        (add_string-Writes (codes "mechanism") (codes "What-Do-You-Support?"))
        (seq_Writes _ _ (string_field (codes "payload") []) _
          (add_string-Writes (codes "payload") [])
          (add_long-Writes (codes "autoAuthorize") (pos 1))))

abbrev pub saslcontinue_document : ℤ → Bytes → Bytes
saslcontinue_document conversation_id payload =
    long_field (codes "saslContinue")
    ++ (field 16 (codes "conversationId") (int_bytes conversation_id)
        ++ string_field (codes "payload") payload)

saslcontinue_fields-Writes :
    (conversation_id : ℤ) (payload : Bytes)
    → Writes
        (saslcontinue_fields conversation_id payload (pos (length payload + 1)))
        (saslcontinue_document conversation_id payload)
unfolding saslcontinue_fields
saslcontinue_fields-Writes conversation_id payload =
    seq_Writes _ _ (long_field (codes "saslContinue")) _
      (add_long-Writes (codes "saslContinue") (pos 1))
      (seq_Writes _ _ (field 16 (codes "conversationId") (int_bytes conversation_id)) _
        (add_int32-Writes (codes "conversationId") conversation_id)
        (add_stringl-Writes (codes "payload") payload (pos (length payload + 1))))

-- The SASL packets, for a payload whose length is given with its NUL counted, as the callers give it:
-- where both have fewer than 2 ^ 30 - 512 bytes, each is a query to the database's commands with every
-- length right. Without a mechanism the start packet asks for the mechanisms instead, and leaves the
-- payload out.
pub sasl_packets-IsQuery :
    (con : Connection) (database : Bytes) (mechanism : Option Bytes) (conversation_id : ℤ)
    (payload : Bytes)
    → length (
        print_query
          (get_reqid con).last_reqid
          (some (command_ns database))
          (saslstart_document mechanism payload))
      < str_limit
    → length (
        print_query
          (get_reqid con).last_reqid
          (some (command_ns database))
          (saslcontinue_document conversation_id payload))
      < str_limit
    → IsQuery con
        (some (command_ns database))
        (saslstart_document mechanism payload)
        (create_saslstart_packet con database mechanism payload (pos (length payload + 1)))
      × IsQuery con (some (command_ns database)) (saslcontinue_document conversation_id payload) (
          create_saslcontinue_packet con database conversation_id payload
            (pos (length payload + 1)))
unfolding create_saslstart_packet create_saslcontinue_packet
sasl_packets-IsQuery con database mechanism conversation_id payload short₁ short₂ = (
  create_packet-Holds con (some (command_ns database)) _ _
      (saslstart_fields-Writes mechanism payload) short₁,
  create_packet-Holds con (some (command_ns database)) _ _
      (saslcontinue_fields-Writes conversation_id payload) short₂,
)
