-- ===== src/Connection/Clock.antt =====
-- The times of `mongo_connection_ping`: the round trip in milliseconds.
use mongo_hhvm_driver.Base.{
  if◌then◌else◌, ℕ, ◌+◌, ◌-◌, ◌*◌, ◌/◌, ◌<◌, ◌≤◌, ◌^◌, ◌≡◌, ap, ◌∙◌, arith, leb, Bool-cases, inl,
  inr,
}
use mongo_hhvm_driver.Base.Int.{ℤ, pos, negsuc, sub_ℕ, ◌+ℤ◌, ltb_ℤ, to_int, to_int_lem}
use mongo_hhvm_driver.Connection.Effect.{Time, quotient}
use mongo_hhvm_driver.Connection.Ping.{elapsed}

-- The time in microseconds
abbrev pub micros : Time → ℕ
micros t = t.sec * 1000000 + t.usec

-- A time as gettimeofday gives it
abbrev pub IsTime : Time → Type 0
IsTime t = t.usec < 1000000

abbrev clip : ℤ → ℤ
clip ms = if ltb_ℤ ms (pos 0) then pos 0 else ms

abbrev raw : Time → Time → ℤ
raw start end =
    sub_ℕ (end.sec * 1000) (start.sec * 1000) +ℤ quotient (sub_ℕ end.usec start.usec) 1000

clip_same : (n : ℕ) → clip (pos n) ≡ pos n
clip_same n = ground arith

clip_int : (n : ℕ) → n < 2 ^ 31 → clip (to_int (pos n)) ≡ pos n
clip_int n h = ap clip (to_int_lem (pos n) (h, omega arith)) ∙ clip_same n

sub_ℕ_le : (a b : ℕ) → b ≤ a → sub_ℕ a b ≡ pos (a - b)
sub_ℕ_le a b h = ground arith

sub_ℕ_lt : (a b : ℕ) → a < b → sub_ℕ a b ≡ negsuc (b - a - 1)
sub_ℕ_lt a b h = ground arith

add_pos : (a b : ℕ) → pos a +ℤ pos b ≡ pos (a + b)
add_pos a b = ground arith

borrow : (a b : ℕ) → b ≤ a → pos a +ℤ sub_ℕ 0 b ≡ pos (a - b)
borrow a b h = ground arith

same_second :
    (start end : Time)
    → start.sec ≤ end.sec
    → start.usec ≤ end.usec
    → raw start end ≡ pos (end.sec * 1000 - start.sec * 1000 + (end.usec - start.usec) / 1000)
same_second start end h k =
    rw (sub_ℕ_le (end.sec * 1000) (start.sec * 1000) (omega arith), sub_ℕ_le end.usec start.usec k)
      (add_pos (end.sec * 1000 - start.sec * 1000) ((end.usec - start.usec) / 1000))

later_second :
    (start end : Time)
    → start.sec < end.sec
    → end.usec < start.usec
    → start.usec < 1000000
    → raw start end ≡ pos (end.sec * 1000 - start.sec * 1000 - (start.usec - end.usec) / 1000)
later_second start end h k u =
    let whole : ℕ = end.sec * 1000 - start.sec * 1000 in
    let part : ℕ = (start.usec - end.usec) / 1000 in
    let d : start.usec - end.usec - 1 + 1 ≡ start.usec - end.usec = omega arith in
    rw (sub_ℕ_le (end.sec * 1000) (start.sec * 1000) (omega arith), sub_ℕ_lt end.usec start.usec k)
      (rw d (borrow whole part (omega arith)))

elapsed-raw :
    (start end : Time) (n : ℕ) → raw start end ≡ pos n → n < 2 ^ 31 → elapsed start end ≡ pos n
unfolding elapsed
elapsed-raw start end n e small = ap (λ ms. clip (to_int ms)) e ∙ clip_int n small

-- For two times in order, less than 2 ^ 21 seconds apart, the round trip is within a millisecond of
-- the time that has passed.
pub elapsed_bounds :
    (start end : Time)
    → IsTime start
    → IsTime end
    → micros start ≤ micros end
    → end.sec - start.sec < 2 ^ 21
    → (n : ℕ) × (elapsed start end ≡ pos n)
      × (n * 1000 < micros end - micros start + 1000)
      × (micros end - micros start < n * 1000 + 1000)
elapsed_bounds start end u v order small = elim (Bool-cases (leb start.usec end.usec)) [
  | inl up ↦
      let k : start.usec ≤ end.usec = ground arith in
      let h : start.sec ≤ end.sec = omega arith in
      (
        end.sec * 1000 - start.sec * 1000 + (end.usec - start.usec) / 1000,
        elapsed-raw start end _ (same_second start end h k) (omega arith),
        omega arith,
        omega arith,
      )
  | inr down ↦
      let k : end.usec < start.usec = ground arith in
      let h : start.sec < end.sec = omega arith in
      (
        end.sec * 1000 - start.sec * 1000 - (start.usec - end.usec) / 1000,
        elapsed-raw start end _ (later_second start end h k u) (omega arith),
        omega arith,
        omega arith,
      )
]
