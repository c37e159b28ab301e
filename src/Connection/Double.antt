-- ===== src/Connection/Double.antt =====
-- What the code asks of a `double` that it reads: whether it is above 0, and its integer part. The
-- value is the eight bytes of an IEEE 754 number, little-endian.
use mongo_hhvm_driver.Base.{
  ℕ, ◌+◌, ◌-◌, ◌*◌, ◌/◌, ◌%◌, ◌^◌, Bool, ◌&&◌, Option, none, some, [], ◌∷◌, ltb, leb, if◌then◌else◌,
}
use mongo_hhvm_driver.Base.Int.{ℤ, pos}
use mongo_hhvm_driver.CLib.{Bytes}

-- The 64 bits: the sign, eleven bits of the exponent, 52 bits of the fraction
abbrev pub bits : Bytes → ℕ
bits [] = 0
bits (b ∷ bytes) = b + 256 * bits bytes

-- `ok > 0`: neither 0, nor negative, nor a NaN
unfoldable pub is_positive : Bytes → Bool
is_positive v = ltb 0 (bits v) && leb (bits v) (2047 * 2 ^ 52)

-- `(int) ok` for an `ok` above 0; `none` is a value that no `int` can hold.
unfoldable pub to_integer : Bytes → Option ℤ
to_integer v =
    let exponent = bits v / 2 ^ 52 in
    let fraction = bits v % 2 ^ 52 in
    if ltb exponent 1023
    then some (pos 0)
    else if ltb exponent (1023 + 31)
    then some (pos ((2 ^ 52 + fraction) / 2 ^ (52 + 1023 - exponent)))
    else none
