-- ===== src/Connection/Meaning.antt =====
-- What a reply to ismaster means, field by field, and that `mongo_connection_ismaster` stores it: the
-- decoding is defined on every reply that was written from elements.
use mongo_hhvm_driver.Base.{
  ◌>>=◌, ◌+◌, ℕ, Bool, Option, none, some, List, ◌≡◌, refl, arith, Bool-cases, Option-cases, inl,
  inr, if◌then◌else◌, is_some, true, false, ap, ◌∙◌,
}
use mongo_hhvm_driver.Base.Int.{ℤ, pos, to_int}
use mongo_hhvm_driver.CLib.{Bytes, codes}
use mongo_hhvm_driver.Types.{NodeType, Connection}
use mongo_hhvm_driver.Manager.Wire.{WireCheck}
use mongo_hhvm_driver.Bson.Document.{Element, value_position}
use mongo_hhvm_driver.Bson.Fields.{
  find, find_as_int32, find_as_bool, find_as_string, find_as_document, read_with,
}
use mongo_hhvm_driver.Bson.Located.{
  field_of, StandsAt, AllValues, value_position-Located, find-print_elements,
}
use mongo_hhvm_driver.Bson.Values.{as_int32, as_bool, as_text, HasNul}
use mongo_hhvm_driver.Bson.ReadBack.{readers-print_elements}
use mongo_hhvm_driver.Connection.Effect.{Time}
use mongo_hhvm_driver.Connection.Reply.{
  or_default, read_wire, read_limits, Flags, flag, read_flags, is_dbgrid, node_type, read_type,
}
use mongo_hhvm_driver.Connection.Tags.{tags_behind, read_tags}
use mongo_hhvm_driver.Connection.Arrays.{tags_of, IsTags, tags_here}
use mongo_hhvm_driver.Connection.Decode.{Code, Ismaster, is_invalid, after_type, decode}

-- The type of a node: whether it is a master, a router (isdbgrid), a secondary or an arbiter, and
-- whether it names a set
abbrev kind : Bool → Bool → Bool → Bool → Bool → NodeType
kind true true second arbiter named = NodeType.mongos
kind true false second arbiter true = NodeType.primary
kind true false second arbiter false = NodeType.standalone
kind false router true arbiter named = NodeType.secondary
kind false router false true named = NodeType.arbiter
kind false router false false true = NodeType.invalid
kind false router false false false = NodeType.secondary

node_type_lem :
    (master second arbiter : Bool) (set msg : Option Bytes)
    → node_type
        (record { ismaster = master; secondary = second; arbiter = arbiter; set = set })
        (if master then msg else none)
      ≡ kind master (is_dbgrid msg) second arbiter (is_some set)
unfolding node_type
node_type_lem true second arbiter set msg = elim (Bool-cases (is_dbgrid msg)) [
  | inl router ↦ rw router refl
  | inr other ↦
      rw other
        (elim (Bool-cases (is_some set)) [ inl named ↦ rw named refl | inr alone ↦ rw alone refl ])
]
node_type_lem false true arbiter set msg = refl
node_type_lem false false true set msg = refl
node_type_lem false false false set msg = elim (Bool-cases (is_some set)) [
  | inl named ↦ rw named refl
  | inr alone ↦ rw alone refl
]

module _ (xs : List Element) where
  abbrev number : Bytes → ℤ → ℤ
  number name old = or_default old (field_of xs name 16 >>= as_int32)

  abbrev set_flag : Bytes → Bool
  set_flag name = flag (field_of xs name 8 >>= as_bool)

  abbrev text : Bytes → Option Bytes
  text name = field_of xs name 2 >>= as_text

  abbrev pub wired : Connection → Connection
  wired con = record con {
    min_wire_version = number (codes "minWireVersion") con.min_wire_version;
    max_wire_version = number (codes "maxWireVersion") con.max_wire_version;
  }

  abbrev pub limited : Connection → Connection
  limited con = record con {
    max_bson_size = number (codes "maxBsonObjectSize") con.max_bson_size;
    max_message_size = number (codes "maxMessageSizeBytes") con.max_message_size;
    max_write_batch_size = number (codes "maxWriteBatchSize") con.max_write_batch_size;
  }

  abbrev pub flags_of : Flags
  flags_of = record {
    ismaster = set_flag (codes "ismaster");
    secondary = set_flag (codes "secondary");
    arbiter = set_flag (codes "arbiterOnly");
    set = text (codes "setName");
  }

  abbrev pub type_of : NodeType
  type_of =
      kind flags_of.ismaster (is_dbgrid (text (codes "msg"))) flags_of.secondary flags_of.arbiter
        (is_some (text (codes "setName")))

  -- The connection of a supported server, with its limits and its type
  abbrev pub described : Connection → Connection
  described con = record (limited (wired con)) { connection_type = type_of }

  abbrev failed_with : Code → Option Bytes → Ismaster
  failed_with code e = record { code = code; error_message = e; discovery = none }

  -- What a caller without a server definition gets for a reply with these tags
  abbrev pub meaning : List Bytes → (ℤ → ℤ → WireCheck) → Time → Connection → Ismaster × Connection
  meaning tags supports start con =
      let check = supports (wired con).min_wire_version (wired con).max_wire_version in
      if check.supported
      then if is_invalid type_of
        then (
          failed_with Code.error (some (codes "ismaster: got unknown node type")),
          described con,
        )
        else (
          failed_with Code.worked none,
          record (described con) { tags = tags; last_ismaster = to_int (pos start.sec) },
        )
      else (failed_with Code.unsupported check.error_message, wired con)

  module _ (buffer rest : Bytes) (nul : AllValues HasNul xs) (e : StandsAt 4 buffer xs rest) where
    number_lem :
        (name : Bytes) → find_as_int32 buffer 4 name ≡ some (field_of xs name 16 >>= as_int32)
    number_lem name = (readers-print_elements xs buffer rest name 4 nul e).0

    flag_lem : (name : Bytes) → find_as_bool buffer 4 name ≡ some (field_of xs name 8 >>= as_bool)
    flag_lem name = (readers-print_elements xs buffer rest name 4 nul e).3

    text_lem : (name : Bytes) → find_as_string buffer 4 name ≡ some (text name)
    text_lem name = (readers-print_elements xs buffer rest name 4 nul e).4

    read_wire_lem : (con : Connection) → read_wire buffer con ≡ some (wired con)
    unfolding read_wire
    read_wire_lem con =
        rw (number_lem (codes "minWireVersion"), number_lem (codes "maxWireVersion")) refl

    read_limits_lem : (con : Connection) → read_limits buffer con ≡ some (limited con)
    unfolding read_limits
    read_limits_lem con =
        rw
          (
            number_lem (codes "maxBsonObjectSize"),
            number_lem (codes "maxMessageSizeBytes"),
            number_lem (codes "maxWriteBatchSize"),
          )
          refl

    read_flags_lem : read_flags buffer ≡ some flags_of
    unfolding read_flags
    read_flags_lem =
        rw
          (
            flag_lem (codes "ismaster"),
            flag_lem (codes "secondary"),
            flag_lem (codes "arbiterOnly"),
            text_lem (codes "setName"),
          )
          refl

    read_type_lem :
        (con : Connection)
        → read_type buffer flags_of con ≡ some (record con { connection_type = type_of })
    unfolding read_type
    read_type_lem con =
        let typed : node_type flags_of (if flags_of.ismaster then text (codes "msg") else none)
            ≡ type_of =
          node_type_lem flags_of.ismaster flags_of.secondary flags_of.arbiter
            (text (codes "setName")) (text (codes "msg")) in
        let asked : (if flags_of.ismaster then find_as_string buffer 4 (codes "msg") else some none)
            ≡ some (if flags_of.ismaster then text (codes "msg") else none) =
          elim (Bool-cases flags_of.ismaster) [
            | inl master ↦ rw master (text_lem (codes "msg"))
            | inr other ↦ rw other refl
          ] in
        ap (λ msg. msg >>= λ m. some (record con { connection_type = node_type flags_of m })) asked
        ∙ ap (λ type. some (record con { connection_type = type })) typed

    module _ (ts : List Element) (are_tags : IsTags (field_of xs (codes "tags") 3) ts) where
      read_tags_lem :
          (con : Connection) → read_tags buffer con ≡ some (record con { tags = tags_of ts })
      unfolding read_tags find_as_document
      read_tags_lem con =
          let found : find buffer 4 (codes "tags") 3 ≡ some (value_position 4 xs (codes "tags") 3) =
            find-print_elements xs buffer rest (codes "tags") 3 4 (omega arith) e in
          let tags =
            tags_here buffer HasNul ts
              (value_position-Located HasNul xs buffer rest (codes "tags") 3 4 nul e) are_tags in
          rw found
            (elim (Option-cases (
              read_with (λ (value : ℕ). some (value + 4)) (value_position 4 xs (codes "tags") 3))) [
                | inl missing ↦ let no = rw missing at tags in cc
                | inr (q, read) ↦
                    let all : tags_behind buffer q ≡ some (tags_of ts) = rw read at tags in
                    rw read (rw all refl)
              ])

      after_type_lem :
          (start : Time) (set : Option Bytes) (con : Connection)
          → after_type buffer start set none con
            ≡ some (
                if is_invalid con.connection_type
                then (failed_with Code.error (some (codes "ismaster: got unknown node type")), con)
                else (
                  failed_with Code.worked none,
                  record con { tags = tags_of ts; last_ismaster = to_int (pos start.sec) },
                ))
      after_type_lem start set con = elim (Bool-cases (is_invalid con.connection_type)) [
        | inl bad ↦ rw bad refl
        | inr good ↦ rw good (rw (read_tags_lem con) refl)
      ]

      -- On a reply that was written from elements, whose strings have a NUL and whose tags, if
      -- there are any, are a document of strings, the decoding for a caller without a server definition
      -- is defined, and stores what the fields mean: numbers that are missing stay as they were, flags
      -- that are missing are not set, the type follows from the flags, the tags are name:value in
      -- their order, and a reply whose wire versions or type are not accepted stores no time.
      pub decode-print_elements :
          (supports : ℤ → ℤ → WireCheck) (start : Time) (con : Connection)
          → decode supports buffer start none con ≡ some (meaning (tags_of ts) supports start con)
      unfolding decode
      decode-print_elements supports start con =
          rw (read_wire_lem con)
            (elim (Bool-cases
              (supports (wired con).min_wire_version (wired con).max_wire_version).supported) [
                | inr bad ↦ rw bad refl
                | inl good ↦ rw good (
                    rw (read_limits_lem (wired con)) (
                      rw read_flags_lem (
                        rw (read_type_lem (limited (wired con)))
                          (after_type_lem start flags_of.set (described con)))))
              ])
