-- ===== src/Connection/Reply.antt =====
-- What `mongo_connection_ismaster` reads from the reply: wire versions, limits, flags, and the type
-- of the node. The document starts at 4, behind its length.
use mongo_hhvm_driver.Base.{
  ◌>>=◌, ℕ, Bool, false, not, Option, none, some, ◌==◌, if◌then◌else◌, is_some,
}
use mongo_hhvm_driver.CLib.{Bytes, codes, str_eq}
use mongo_hhvm_driver.Types.{NodeType, Connection}
use mongo_hhvm_driver.Bson.Fields.{find_as_int32, find_as_bool, find_as_string}

-- The value of a field, or what was there before
abbrev pub or_default {ℓ} : {A : Type ℓ} → A → Option A → A
or_default old none = old
or_default old (some v) = v

-- minWireVersion and maxWireVersion
unfoldable pub read_wire : Bytes → Connection → Option Connection
unfolding find_as_int32
read_wire buffer con = do
  min ← find_as_int32 buffer 4 (codes "minWireVersion")
  max ← find_as_int32 buffer 4 (codes "maxWireVersion")
  some (record con {
    min_wire_version = or_default con.min_wire_version min;
    max_wire_version = or_default con.max_wire_version max;
  })

-- maxBsonObjectSize, maxMessageSizeBytes and maxWriteBatchSize
unfoldable pub read_limits : Bytes → Connection → Option Connection
unfolding find_as_int32
read_limits buffer con = do
  bson ← find_as_int32 buffer 4 (codes "maxBsonObjectSize")
  message ← find_as_int32 buffer 4 (codes "maxMessageSizeBytes")
  batch ← find_as_int32 buffer 4 (codes "maxWriteBatchSize")
  some (record con {
    max_bson_size = or_default con.max_bson_size bson;
    max_message_size = or_default con.max_message_size message;
    max_write_batch_size = or_default con.max_write_batch_size batch;
  })

-- The flags, and the strings that the type and the tests depend on
pub record Flags : Type 0 where
  pub ismaster : Bool
  pub secondary : Bool
  pub arbiter : Bool
  pub set : Option Bytes

-- An `unsigned char` that is 0 unless the field is there
abbrev pub flag : Option ℕ → Bool
flag none = false
flag (some b) = not (b == 0)

unfoldable pub read_flags : Bytes → Option Flags
unfolding find_as_bool find_as_string
read_flags buffer = do
  ismaster ← find_as_bool buffer 4 (codes "ismaster")
  secondary ← find_as_bool buffer 4 (codes "secondary")
  arbiter ← find_as_bool buffer 4 (codes "arbiterOnly")
  set ← find_as_string buffer 4 (codes "setName")
  some (record {
    ismaster = flag ismaster;
    secondary = flag secondary;
    arbiter = flag arbiter;
    set = set;
  })

abbrev pub is_dbgrid : Option Bytes → Bool
is_dbgrid none = false
is_dbgrid (some msg) = str_eq msg (codes "isdbgrid")

-- The type that the flags and the message tell
unfoldable pub node_type : Flags → Option Bytes → NodeType
node_type flags msg =
    if flags.ismaster
    then if is_dbgrid msg
      then NodeType.mongos
      else if is_some flags.set
      then NodeType.primary
      else NodeType.standalone
    else if flags.secondary
    then NodeType.secondary
    else if flags.arbiter
    then NodeType.arbiter
    else if is_some flags.set
    then NodeType.invalid
    else NodeType.secondary

-- The connection with its type; the message is looked for only in a master's reply.
unfoldable pub read_type : Bytes → Flags → Connection → Option Connection
unfolding find_as_string node_type
read_type buffer flags con = do
  msg ← if flags.ismaster then find_as_string buffer 4 (codes "msg") else some none
  some (record con { connection_type = node_type flags msg })
