-- ===== src/Parse/Outcome.antt =====
-- What a step of the parser leaves behind: the servers, its return value, and the error message if
-- it sets one. The servers are initialised by `mongo_parse_init`.
use mongo_hhvm_driver.Base.{Option, List, none, some, false, []}
use mongo_hhvm_driver.Base.Int.{ℤ, pos, negsuc}
use mongo_hhvm_driver.CLib.{Bytes, codes}
use mongo_hhvm_driver.Types.{RpType, ConType, ServerDef, ServerOptions, Servers}

pub record Outcome : Type 0 where
  pub servers : Servers
  pub retval : ℤ
  pub error_message : Option Bytes

-- return 0
abbrev pub done : Servers → Outcome
done servers = record { servers = servers; retval = pos 0; error_message = none }

-- return -1: it worked, but the option should not be used.
abbrev pub discouraged : Servers → Outcome
discouraged servers = record { servers = servers; retval = negsuc 0; error_message = none }

-- return 3, with a message
abbrev pub logic_error : Servers → Bytes → Outcome
logic_error servers message = record {
  servers = servers;
  retval = pos 3;
  error_message = some message;
}

abbrev pub set_options : Servers → ServerOptions → Servers
set_options servers options = record servers { options = options }

abbrev pub set_servers : Servers → List ServerDef → Servers
set_servers servers defs = record servers { server = defs }

abbrev pub set_type : Servers → RpType → Servers
set_type servers type = record servers { read_pref = record (servers.read_pref) { type = type } }

abbrev pub set_w : Servers → ℤ → Option Bytes → Servers
set_w servers w wstring =
    set_options servers (record (servers.options) { default_w = w; default_wstring = wstring })

abbrev pub default_connect_timeout : ℤ
default_connect_timeout = pos 60000

abbrev pub default_socket_timeout : ℤ
default_socket_timeout = pos 30000

-- MONGO_RP_DEFAULT_ACCEPTABLE_LATENCY_MS
abbrev pub default_acceptable_latency : ℤ
default_acceptable_latency = pos 15

-- mongo_parse_init
abbrev pub parse_init : Servers
parse_init = record {
  server = [];
  options = record {
    con_type = ConType.standalone;
    repl_set_name = none;
    connect_timeout_ms = default_connect_timeout;
    socket_timeout_ms = default_socket_timeout;
    secondary_acceptable_latency_ms = default_acceptable_latency;
    default_w = negsuc 0;
    default_wstring = none;
    default_wtimeout = negsuc 0;
    default_fsync = false;
    default_journal = false;
    ssl = 0;
    gssapi_service_name = some (codes "mongodb");
    ctx = none;
  };
  read_pref = record { type = RpType.primary; tagsets = [] };
}
