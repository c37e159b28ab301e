-- ===== src/Parse/Slices.antt =====
-- Slices of the string that is parsed, by what stands at an index.
use mongo_hhvm_driver.Base.{ℕ, ◌+◌, ◌-◌, ◌++◌, length, drop, ◌≡◌, arith, take-append_left}
use mongo_hhvm_driver.CLib.{Bytes}
use mongo_hhvm_driver.Parse.OptionString.{slice}

-- What stands at an index.
pub slice_lem : (s u r : Bytes) (at : ℕ) → drop at s ≡ u ++ r → slice s at (at + length u) ≡ u
slice_lem s u r at e =
    let count : at + length u - at ≡ length u = omega arith in rw (count, e) (take-append_left u r)
