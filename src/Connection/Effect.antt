-- ===== src/Connection/Effect.antt =====
-- What the operations of src/mcon/connections.c work on: the connection, and a world that only the
-- callbacks of the manager and the clock change. An operation fails with a message, as where the code
-- returns 0, and keeps what it had changed; `none` is undefined behaviour.
use mongo_hhvm_driver.Base.{ℕ, ◌+◌, ◌/◌, Option, none, some}
use mongo_hhvm_driver.Base.Int.{ℤ, pos, negsuc, sub_ℕ}
use mongo_hhvm_driver.CLib.{Bytes}
use mongo_hhvm_driver.Types.{Callback, Connection, ServerDef, ServerOptions}
use mongo_hhvm_driver.Manager.Wire.{WireCheck}

-- A result, or the message of `*error_message`, if it was set
pub data Attempt {ℓ} (A : Type ℓ) : Type ℓ where
  done : A → Attempt A
  failed : Option Bytes → Attempt A

-- A struct timeval
pub record Time : Type 0 where
  pub sec : ℕ
  pub usec : ℕ

-- The callbacks of mongo_con_manager, the clock, and the random numbers. A callback that reads
-- returns what it read; it gets the timeout and the size that were asked for.
pub record Io (W : Type 0) : Type 0 where
  pub connect : ServerDef → ServerOptions → W → Attempt ℕ × W
  pub send : Connection → ServerOptions → Bytes → W → Attempt (Unit {0}) × W
  pub recv_header : Connection → ServerOptions → ℤ → W → Attempt Bytes × W
  pub recv_data : Connection → ServerOptions → ℤ → ℤ → W → Attempt Bytes × W
  pub close : Connection → ℕ → W → W
  pub cleanup : Callback → W → W
  pub forget : Connection → W → W
  pub supports_wire_version : ℤ → ℤ → WireCheck
  pub gettimeofday : W → Time × W
  pub rand : W → ℕ × W

-- The connection that an operation works on, and the world
pub record Session (W : Type 0) : Type 0 where
  pub con : Connection
  pub world : W

abbrev pub Run : Type 0 → Type 0 → Type 0
Run W A = Session W → Option (Attempt A × Session W)

abbrev pub then_run :
    {W A B : Type 0}
    → (A → Run W B)
    → Option (Attempt A × Session W)
    → Option (Attempt B × Session W)
then_run f none = none
then_run f (some (Attempt.done a, s)) = f a s
then_run f (some (Attempt.failed e, s)) = some (Attempt.failed e, s)

infixl 5 ◌>>=◌
unfoldable pub ◌>>=◌ : {W A B : Type 0} → Run W A → (A → Run W B) → Run W B
◌>>=◌ m f s = then_run f (m s)

unfoldable pub return : {W A : Type 0} → A → Run W A
return a s = some (Attempt.done a, s)

unfoldable pub fail : {W A : Type 0} → Option Bytes → Run W A
fail e s = some (Attempt.failed e, s)

-- A computation with no effect, which may fail or be undefined
unfoldable pub attempt : {W A : Type 0} → Option (Attempt A) → Run W A
attempt none s = none
attempt (some a) s = some (a, s)

unfoldable pub lift : {W A : Type 0} → Option A → Run W A
lift none s = none
lift (some a) s = some (Attempt.done a, s)

unfoldable pub get_con : {W : Type 0} → Run W Connection
get_con s = some (Attempt.done s.con, s)

unfoldable pub set_con : {W : Type 0} → Connection → Run W (Unit {0})
set_con con s = some (Attempt.done tt, record { con = con; world = s.world })

-- The outcome of a step as a value: what `if (!f(...))` tests
abbrev pub caught :
    {W A : Type 0} → Option (Attempt A × Session W) → Option (Attempt (Attempt A) × Session W)
caught none = none
caught (some (a, s)) = some (Attempt.done a, s)

unfoldable pub catch : {W A : Type 0} → Run W A → Run W (Attempt A)
catch m s = caught (m s)

abbrev pub with_world : {W A : Type 0} → Connection → Attempt A × W → Option (Attempt A × Session W)
with_world con (a, w) = some (a, record { con = con; world = w })

unfoldable pub call : {W A : Type 0} → (Connection → W → Attempt A × W) → Run W A
call f s = with_world s.con (f s.con s.world)

abbrev pub with_time : {W : Type 0} → Connection → Time × W → Option (Attempt Time × Session W)
with_time con (t, w) = some (Attempt.done t, record { con = con; world = w })

unfoldable pub now : {W : Type 0} → Io W → Run W Time
now io s = with_time s.con (io.gettimeofday s.world)

-- A quotient of C, which rounds towards 0
abbrev pub quotient : ℤ → ℕ → ℤ
quotient (pos n) d = pos (n / d)
quotient (negsuc n) d = sub_ℕ 0 ((n + 1) / d)
