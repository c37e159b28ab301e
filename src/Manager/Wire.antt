-- ===== src/Manager/Wire.antt =====
-- `mongo_mcon_supports_wire_version`.
use mongo_hhvm_driver.Base.{
  ℕ, ◌+◌, ◌*◌, ◌-◌, ◌≤◌, Bool, true, false, Option, none, some, ◌++◌, if◌then◌else◌, length, take,
  ◌≡◌, ◌↔◌, refl, arith, Bool-cases, inl, inr,
}
use mongo_hhvm_driver.Base.Int.{ℤ, pos, negsuc, ◌≤ℤ◌, ltb_ℤ}
use mongo_hhvm_driver.CLib.{Bytes, codes, print_int}

-- MCON_MIN_WIRE_VERSION and MCON_MAX_WIRE_VERSION
abbrev pub min_wire : ℤ
min_wire = pos 0

abbrev pub max_wire : ℤ
max_wire = pos 2

-- What the function returns, and the message that it sets.
pub record WireCheck : Type 0 where
  pub supported : Bool
  pub error_message : Option Bytes

wire_format : Bytes
wire_format =
    codes
      "This driver version requires WireVersion between minWireVersion: %d and maxWireVersion: %d. Got: minWireVersion=%d and maxWireVersion=%d"

-- snprintf into `errlen` bytes, the NUL included
unfoldable pub wire_message : ℤ → ℤ → Bytes
unfolding wire_format
wire_message min max = take (length wire_format - 8 + 1 + 4 * 10 - 1) (
    codes "This driver version requires WireVersion between minWireVersion: "
    ++ (print_int min_wire
        ++ (codes " and maxWireVersion: "
            ++ (print_int max_wire
                ++ (codes ". Got: minWireVersion="
                    ++ (print_int min ++ (codes " and maxWireVersion=" ++ print_int max)))))))

-- mongo_mcon_supports_wire_version
unfoldable pub supports_wire_version : ℤ → ℤ → WireCheck
unfolding wire_message
supports_wire_version min max =
    if ltb_ℤ max_wire min
    then record { supported = false; error_message = some (wire_message min max) }
    else if ltb_ℤ max min_wire
    then record { supported = false; error_message = some (wire_message min max) }
    else record { supported = true; error_message = none }

-- A version that the range and the driver share.
abbrev pub IsShared : ℤ → ℤ → Type 0
IsShared min max = (v : ℕ) × (v ≤ 2) × (min ≤ℤ pos v) × (pos v ≤ℤ max)

above : (min max : ℤ) → ltb_ℤ max_wire min ≡ true → ¬ IsShared min max
above min max h (v, small, from_min, to_max) = ground arith

under : (min max : ℤ) → ltb_ℤ max min_wire ≡ true → ¬ IsShared min max
under min max h (v, small, from_min, to_max) = ground arith

common :
    (min max : ℤ)
    → min ≤ℤ max
    → ltb_ℤ max_wire min ≡ false
    → ltb_ℤ max min_wire ≡ false
    → IsShared min max
common (pos m) max h low fits = (m, ground arith, omega arith, h)
common (negsuc m) max h low fits = (0, omega arith, omega arith, ground arith)

-- A range that is not empty is supported exactly when it has a version in common with the driver's,
-- from 0 to 2.
pub supports_wire_version_iff :
    (min max : ℤ)
    → min ≤ℤ max
    → ((supports_wire_version min max).supported ≡ true) ↔ IsShared min max
unfolding supports_wire_version
supports_wire_version_iff min max h = elim (Bool-cases (ltb_ℤ max_wire min)) [
  | inl high ↦ rw high (λ e. cc, λ v. absurd (above min max high v))
  | inr low ↦ rw low (elim (Bool-cases (ltb_ℤ max min_wire)) [
    | inl below ↦ rw below (λ e. cc, λ v. absurd (under min max below v))
    | inr fits ↦ rw fits (λ e. common min max h low fits, λ v. refl)
  ])
]
