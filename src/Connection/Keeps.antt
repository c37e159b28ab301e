-- ===== src/Connection/Keeps.antt =====
-- Properties of a connection that an operation keeps, whatever its outcome: one rule for each step of
-- an operation.
use mongo_hhvm_driver.Base.{Option, none, some, Sure}
use mongo_hhvm_driver.CLib.{Bytes}
use mongo_hhvm_driver.Types.{Connection}
use mongo_hhvm_driver.Connection.Effect.{
  Attempt, Time, Io, Session, Run, then_run, ◌>>=◌, return, fail, attempt, lift, get_con, set_con,
  caught, catch, with_world, call, with_time, now,
}

abbrev pub Ensures :
    {W A : Type 0} → (Connection → Type 0) → Option (Attempt A × Session W) → Type 0
Ensures P none = Unit
Ensures P (some (a, s)) = P s.con

pub record Keeps {W A : Type 0} (P : Connection → Type 0) (m : Run W A) : Type 0 where
  pub holds : (s : Session W) → P s.con → Ensures P (m s)

module _ {W : Type 0} (P : Connection → Type 0) where
  then_run-Ensures :
      {A B : Type 0} (f : A → Run W B) (r : Option (Attempt A × Session W))
      → ((a : A) → Keeps P (f a))
      → Ensures P r
      → Ensures P (then_run f r)
  then_run-Ensures f none k h = tt
  then_run-Ensures f (some (Attempt.done a, s)) k h = (k a).holds s h
  then_run-Ensures f (some (Attempt.failed e, s)) k h = h

  pub bind_Keeps :
      {A B : Type 0} (m : Run W A) (f : A → Run W B)
      → Keeps P m
      → ((a : A) → Keeps P (f a))
      → Keeps P (m >>= f)
  unfolding ◌>>=◌
  bind_Keeps m f p k = record { holds = λ s h. then_run-Ensures f (m s) k (p.holds s h) }

  -- What follows a look at the connection may use what it has.
  pub get_con-Keeps :
      {B : Type 0} (f : Connection → Run W B)
      → ((con : Connection) → P con → Keeps P (f con))
      → Keeps P (get_con >>= f)
  unfolding get_con ◌>>=◌
  get_con-Keeps f k = record { holds = λ s h. (k s.con h).holds s h }

  pub set_con-Keeps : (con : Connection) → P con → Keeps {W = W} P (set_con con)
  unfolding set_con
  set_con-Keeps con p = record { holds = λ s h. p }

  pub return-Keeps : {A : Type 0} (a : A) → Keeps {W = W} P (return a)
  unfolding return
  return-Keeps a = record { holds = λ s h. h }

  pub fail-Keeps : (A : Type 0) (e : Option Bytes) → Keeps {W = W} {A = A} P (fail e)
  unfolding fail
  fail-Keeps A e = record { holds = λ s h. h }

  pub lift-Keeps : {A : Type 0} (o : Option A) → Keeps {W = W} P (lift o)
  unfolding lift
  lift-Keeps none = record { holds = λ s h. tt }
  lift-Keeps (some a) = record { holds = λ s h. h }

  pub attempt-Keeps : {A : Type 0} (o : Option (Attempt A)) → Keeps {W = W} P (attempt o)
  unfolding attempt
  attempt-Keeps none = record { holds = λ s h. tt }
  attempt-Keeps (some a) = record { holds = λ s h. h }

  caught-Ensures :
      {A : Type 0} (r : Option (Attempt A × Session W)) → Ensures P r → Ensures P (caught r)
  caught-Ensures none h = tt
  caught-Ensures (some (a, s)) h = h

  pub catch-Keeps : {A : Type 0} (m : Run W A) → Keeps P m → Keeps P (catch m)
  unfolding catch
  catch-Keeps m p = record { holds = λ s h. caught-Ensures (m s) (p.holds s h) }

  with_world-Ensures :
      {A : Type 0} (con : Connection) (r : Attempt A × W) → P con → Ensures P (with_world con r)
  with_world-Ensures con (a, w) h = h

  pub call-Keeps : {A : Type 0} (f : Connection → W → Attempt A × W) → Keeps P (call f)
  unfolding call
  call-Keeps f = record { holds = λ s h. with_world-Ensures s.con (f s.con s.world) h }

  with_time-Ensures : (con : Connection) (r : Time × W) → P con → Ensures P (with_time con r)
  with_time-Ensures con (t, w) h = h

  pub now-Keeps : (io : Io W) → Keeps P (now io)
  unfolding now
  now-Keeps io = record { holds = λ s h. with_time-Ensures s.con (io.gettimeofday s.world) h }

  -- What follows a computation may use what is sure of its result.
  pub lift_bind_Keeps :
      {A B : Type 0} (Q : A → Type 0) (o : Option A) (f : A → Run W B)
      → Sure Q o
      → ((a : A) → Q a → Keeps P (f a))
      → Keeps P (lift o >>= f)
  unfolding lift ◌>>=◌
  lift_bind_Keeps Q none f h k = record { holds = λ s p. tt }
  lift_bind_Keeps Q (some a) f (Sure.just _ h) k = k a h
