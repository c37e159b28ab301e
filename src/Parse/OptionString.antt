-- ===== src/Parse/OptionString.antt =====
-- `mongo_process_option` and `mongo_parse_options`. A pointer into the string is its index.
use mongo_hhvm_driver.Base.{
  ℕ, ◌+◌, ◌-◌, Bool, ◌||◌, Option, none, some, [], ◌∷◌, ◌==◌, leb, if◌then◌else◌, length, take,
  drop,
}
use mongo_hhvm_driver.Base.Int.{pos, ltb_ℤ}
use mongo_hhvm_driver.CLib.{Bytes, codes}
use mongo_hhvm_driver.Types.{Servers}
use mongo_hhvm_driver.Parse.Outcome.{Outcome}
use mongo_hhvm_driver.Parse.Store.{store_option}

-- strndup(s + from, to - from)
abbrev pub slice : Bytes → ℕ → ℕ → Bytes
slice s from to = take (to - from) (drop from s)

-- return 1
abbrev pub missing : Servers → Bytes → Outcome
missing servers message = record { servers = servers; retval = pos 1; error_message = some message }

-- The string at `name` is empty, or the `=` stands right there.
abbrev pub has_no_name : Bytes → ℕ → Option ℕ → Bool
has_no_name s name none = leb (length s) name
has_no_name s name (some value) = leb (length s) name || value == name + 1

abbrev pub process_value : Servers → Bytes → ℕ → Option ℕ → ℕ → Outcome
process_value servers s name none end = missing servers (codes "- Found an empty option value")
process_value servers s name (some value) end =
    store_option servers (slice s name (value - 1)) (slice s value end)

-- mongo_process_option
unfoldable pub process_option : Servers → Bytes → ℕ → Option ℕ → ℕ → Outcome
process_option servers s name value end =
    if has_no_name s name value
    then missing servers (codes "- Found an empty option name")
    else process_value servers s name value end

-- The state of the loop; `failed` is the outcome that it returns at once.
pub record Scan : Type 0 where
  pub servers : Servers
  pub name_start : ℕ
  pub value_start : Option ℕ
  pub failed : Option Outcome

abbrev pub stops_scan : Outcome → Option Outcome
stops_scan outcome = if ltb_ℤ (pos 0) outcome.retval then some outcome else none

abbrev pub end_option : Outcome → ℕ → Scan
end_option outcome at = record {
  servers = outcome.servers;
  name_start = at + 1;
  value_start = none;
  failed = stops_scan outcome;
}

-- The body of the loop, for the byte at `at`.
unfoldable pub scan_byte : Bytes → Scan → ℕ → ℕ → Scan
unfolding process_option
scan_byte s scan at c =
    if c == b'='
    then record scan { value_start = some (at + 1) }
    else if c == b';' || c == b'&'
    then end_option (process_option scan.servers s scan.name_start scan.value_start at) at
    else scan

-- A `return` in the loop, or what the rest of the loop returns.
abbrev pub resume : Option Outcome → Outcome → Outcome
resume none rest = rest
resume (some outcome) rest = outcome

-- The loop from the byte at `at` on, and the last option.
unfoldable pub scan_options : Bytes → Scan → ℕ → Bytes → Outcome
unfolding scan_byte process_option
scan_options s scan at [] = process_option scan.servers s scan.name_start scan.value_start at
scan_options s scan at (c ∷ cs) =
    let next = scan_byte s scan at c in resume next.failed (scan_options s next (at + 1) cs)

abbrev pub scan_start : Servers → ℕ → Scan
scan_start servers at = record {
  servers = servers;
  name_start = at;
  value_start = none;
  failed = none;
}

-- mongo_parse_options. The loop tests for the NUL after its first step, so for an empty string it
-- goes on behind the NUL, which is undefined.
unfoldable pub parse_options : Servers → Bytes → Option Outcome
unfolding scan_options
parse_options servers [] = none
parse_options servers (c ∷ cs) = some (scan_options (c ∷ cs) (scan_start servers 0) 0 (c ∷ cs))
