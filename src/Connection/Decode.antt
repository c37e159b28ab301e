-- ===== src/Connection/Decode.antt =====
-- What the reply to ismaster does to the connection and to the caller's server definition.
use mongo_hhvm_driver.Base.{◌>>=◌, Bool, true, false, Option, none, some, if◌then◌else◌}
use mongo_hhvm_driver.Base.Int.{ℤ, pos, to_int}
use mongo_hhvm_driver.CLib.{Bytes, codes}
use mongo_hhvm_driver.Types.{NodeType, Connection}
use mongo_hhvm_driver.Manager.Wire.{WireCheck}
use mongo_hhvm_driver.Connection.Effect.{Time}
use mongo_hhvm_driver.Connection.Reply.{read_wire, read_limits, read_flags, read_type}
use mongo_hhvm_driver.Connection.Tags.{read_tags}
use mongo_hhvm_driver.Connection.Discover.{Discovery, Verdict, discover}

-- The return values 0, 1, 2, 3 and 4
pub data Code : Type 0 where
  error worked skipped renamed unsupported : Code

-- What the call returns, its message, and what it gives back to a caller that passed a server
pub record Ismaster : Type 0 where
  pub code : Code
  pub error_message : Option Bytes
  pub discovery : Option Discovery

abbrev pub verdict_code : Verdict → Code
verdict_code (Verdict.rejected message) = Code.error
verdict_code Verdict.same_host = Code.worked
verdict_code Verdict.renamed = Code.renamed

abbrev pub verdict_message : Verdict → Option Bytes
verdict_message (Verdict.rejected message) = some message
verdict_message _ = none

-- The times are set unless the discovery failed.
abbrev pub stamped : Time → Connection → Verdict → Connection
stamped start con (Verdict.rejected message) = con
stamped start con _ = record con {
  last_replcheck = to_int (pos start.sec);
  last_ismaster = to_int (pos start.sec);
}

abbrev pub discovered : Time → Connection → Discovery × Verdict → Ismaster × Connection
discovered start con (d, verdict) = (
  record {
    code = verdict_code verdict;
    error_message = verdict_message verdict;
    discovery = some d;
  },
  stamped start con verdict,
)

-- The rest of the call, behind the tags
abbrev pub after_tags :
    Bytes → Time → Option Bytes → Option Discovery → Connection → Option (Ismaster × Connection)
after_tags buffer start set none con = some (
  record { code = Code.worked; error_message = none; discovery = none },
  record con { last_ismaster = to_int (pos start.sec) },
)
after_tags buffer start set (some d) con =
    discover buffer con set d >>= λ found. some (discovered start con found)

abbrev pub is_invalid : NodeType → Bool
is_invalid NodeType.invalid = true
is_invalid _ = false

abbrev pub after_type :
    Bytes → Time → Option Bytes → Option Discovery → Connection → Option (Ismaster × Connection)
after_type buffer start set d con =
    let rest = read_tags buffer con >>= after_tags buffer start set d in
    if is_invalid con.connection_type
    then some (
      record {
        code = Code.error;
        error_message = some (codes "ismaster: got unknown node type");
        discovery = d;
      },
      con,
    )
    else rest

abbrev pub after_wire :
    Bytes → Time → Option Discovery → Connection → WireCheck → Option (Ismaster × Connection)
after_wire buffer start d con check =
    let rest = read_limits buffer con >>= λ limited. read_flags buffer >>= λ flags.
    read_type buffer flags limited >>= λ typed. after_type buffer start flags.set d typed in
    if check.supported
    then rest
    else some (
      record { code = Code.unsupported; error_message = check.error_message; discovery = d },
      con,
    )

-- What the reply does to the connection and to the caller's server
unfoldable pub decode :
    (ℤ → ℤ → WireCheck)
    → Bytes
    → Time
    → Option Discovery
    → Connection
    → Option (Ismaster × Connection)
unfolding read_wire read_limits read_flags read_type read_tags discover
decode supports buffer start d con = read_wire buffer con >>= λ wired.
    after_wire buffer start d wired (supports wired.min_wire_version wired.max_wire_version)
