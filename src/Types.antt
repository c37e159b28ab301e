-- ===== src/Types.antt =====
-- The data model of src/mcon/types.h. A count with its array is a list, a `char *` that may be
-- NULL is an `Option`, and an enumeration of macros is a data type with the macros' values.
use mongo_hhvm_driver.Base.{ℕ, Bool, Option, List}
use mongo_hhvm_driver.Base.Int.{ℤ}
use mongo_hhvm_driver.CLib.{Bytes}

-- MONGO_NODE_*
pub data NodeType : Type 0 where
  invalid standalone primary secondary arbiter mongos : NodeType

-- The bit of each type; each connection has one.
unfoldable pub node_bit : NodeType → ℕ
node_bit NodeType.invalid = 0
node_bit NodeType.standalone = 1
node_bit NodeType.primary = 2
node_bit NodeType.secondary = 4
node_bit NodeType.arbiter = 8
node_bit NodeType.mongos = 16

-- MONGO_RP_*; `other` stands for every integer that is none of them.
pub data RpType : Type 0 where
  primary primary_preferred secondary secondary_preferred nearest any other : RpType

-- MONGO_CON_TYPE_*; `unknown` stands for every other integer.
pub data ConType : Type 0 where
  standalone multiple replset unknown : ConType

-- MONGO_AUTH_MECHANISM_*
pub data Mechanism : Type 0 where
  mongodb_cr gssapi plain mongodb_x509 scram_sha1 : Mechanism

-- mongo_connection_deregister_callback, less the link to the next: a list holds them. The pointers
-- to the data and to the function are numbers.
pub record Callback : Type 0 where
  pub callback_data : ℕ
  pub cleanup_cb : ℕ

pub record Version : Type 0 where
  pub major : ℤ
  pub minor : ℤ
  pub mini : ℤ
  pub build : ℤ

-- mongo_connection. The socket is the number of a handle, 0 for NULL, and times are in seconds; those
-- that the code keeps in an `int` are integers. The request number is the 32 bits of an `int`.
pub record Connection : Type 0 where
  pub last_ping : ℕ
  pub ping_ms : ℤ
  pub connected : Bool
  pub last_ismaster : ℤ
  pub last_replcheck : ℤ
  pub last_reqid : ℕ
  pub socket : ℕ
  pub connection_type : NodeType
  pub version : Version
  pub min_wire_version : ℤ
  pub max_wire_version : ℤ
  pub max_bson_size : ℤ
  pub max_message_size : ℤ
  pub max_write_batch_size : ℤ
  pub tags : List Bytes
  pub hash : Bytes
  pub cleanup_list : List Callback

-- mongo_read_preference_tagset
abbrev pub Tagset : Type 0
Tagset = List Bytes

-- mongo_read_preference
pub record ReadPreference : Type 0 where
  pub type : RpType
  pub tagsets : List Tagset

-- mongo_server_def; the host is set by every function that makes one.
pub record ServerDef : Type 0 where
  pub host : Bytes
  pub port : ℤ
  pub repl_set_name : Option Bytes
  pub db : Option Bytes
  pub authdb : Option Bytes
  pub username : Option Bytes
  pub password : Option Bytes
  pub mechanism : Mechanism

-- mongo_server_options
pub record ServerOptions : Type 0 where
  pub con_type : ConType
  pub repl_set_name : Option Bytes
  pub connect_timeout_ms : ℤ
  pub socket_timeout_ms : ℤ
  pub secondary_acceptable_latency_ms : ℤ
  pub default_w : ℤ
  pub default_wstring : Option Bytes
  pub default_wtimeout : ℤ
  pub default_fsync : Bool
  pub default_journal : Bool
  pub ssl : ℕ
  pub gssapi_service_name : Option Bytes
  pub ctx : Option ℕ

-- mongo_servers
pub record Servers : Type 0 where
  pub server : List ServerDef
  pub options : ServerOptions
  pub read_pref : ReadPreference
