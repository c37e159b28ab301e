-- ===== src/Connection/Outcome.antt =====
-- What the return value of `mongo_connection_ismaster` says of the connection, once a reply was read.
use mongo_hhvm_driver.Base.{Bool, true, false, Option, none, some, ◌≡◌}
use mongo_hhvm_driver.Base.Int.{ℤ, pos, to_int}
use mongo_hhvm_driver.Types.{Connection}
use mongo_hhvm_driver.Manager.Wire.{WireCheck}
use mongo_hhvm_driver.Connection.Effect.{Time}
use mongo_hhvm_driver.Connection.Discover.{Discovery}
use mongo_hhvm_driver.Connection.Decode.{Code, Ismaster, is_invalid}

-- The time of the check of the set that a connection has after a discovery, if there was one
abbrev pub checked : Option Discovery → Time → Connection → ℤ
checked none start before = before.last_replcheck
checked (some d) start before = to_int (pos start.sec)

abbrev pub HasTimes : ℤ → ℤ → Connection → Type 0
HasTimes last_ismaster last_replcheck con =
    (con.last_ismaster ≡ last_ismaster) × (con.last_replcheck ≡ last_replcheck)

-- What a return value says of the connection, of the one before, and of the server that was passed
abbrev pub Means :
    (ℤ → ℤ → WireCheck) → Time → Option Discovery → Connection → Code → Connection → Type 0
Means supports start d before Code.worked con =
    ((supports con.min_wire_version con.max_wire_version).supported ≡ true)
    × (is_invalid con.connection_type ≡ false)
    × HasTimes (to_int (pos start.sec)) (checked d start before) con
Means supports start d before Code.renamed con =
    ((supports con.min_wire_version con.max_wire_version).supported ≡ true)
    × (is_invalid con.connection_type ≡ false)
    × HasTimes (to_int (pos start.sec)) (checked d start before) con
Means supports start d before Code.error con =
    ((supports con.min_wire_version con.max_wire_version).supported ≡ true)
    × HasTimes before.last_ismaster before.last_replcheck con
Means supports start d before Code.unsupported con =
    ((supports con.min_wire_version con.max_wire_version).supported ≡ false)
    × HasTimes before.last_ismaster before.last_replcheck con
Means supports start d before Code.skipped con = ⊥

module _ (supports : ℤ → ℤ → WireCheck) (start : Time) (before : Connection) where
  abbrev Said : Option Discovery → Ismaster × Connection → Type 0
  Said d (r, con) = Means supports start d before r.code con

  -- The wire versions have this check's result, and no check was stored yet.
  record IsWired (b : Bool) (con : Connection) : Type 0 where
    wired : (supports con.min_wire_version con.max_wire_version).supported ≡ b
    unstamped : HasTimes before.last_ismaster before.last_replcheck con

  abbrev SameType : Connection → Connection → Type 0
  SameType con con' = IsWired true con' × (con'.connection_type ≡ con.connection_type)
