-- ===== src/Connection/Invert.antt =====
-- What a successful operation went through: each of its steps succeeded.
use mongo_hhvm_driver.Base.{Option, none, some, ◌≡◌, refl, sym, ap}
use mongo_hhvm_driver.Types.{Connection}
use mongo_hhvm_driver.Connection.Effect.{
  Attempt, Session, Run, then_run, ◌>>=◌, attempt, lift, get_con, with_world, call,
}

-- The step ends like this.
abbrev pub Succeeds : {W A : Type 0} → Run W A → Session W → A → Session W → Type 0
Succeeds m s a s' = m s ≡ some (Attempt.done a, s')

module _ {W : Type 0} where
  then_run-done :
      {A B : Type 0} (f : A → Run W B) (r : Option (Attempt A × Session W)) (b : B) (t : Session W)
      → then_run f r ≡ some (Attempt.done b, t)
      → (a : A) × (s : Session W) × (r ≡ some (Attempt.done a, s)) × Succeeds (f a) s b t
  then_run-done f none b t e = cc
  then_run-done f (some (Attempt.done a, s)) b t e = (a, s, refl, e)
  then_run-done f (some (Attempt.failed x, s)) b t e = cc

  pub bind_done :
      {A B : Type 0} (m : Run W A) (f : A → Run W B) (s : Session W) (b : B) (t : Session W)
      → Succeeds (m >>= f) s b t
      → (a : A) × (s' : Session W) × Succeeds m s a s' × Succeeds (f a) s' b t
  unfolding ◌>>=◌
  bind_done m f s b t e = then_run-done f (m s) b t e

  pub get_con_done :
      {B : Type 0} (f : Connection → Run W B) (s : Session W) (b : B) (t : Session W)
      → Succeeds (get_con >>= f) s b t
      → Succeeds (f s.con) s b t
  unfolding get_con ◌>>=◌
  get_con_done f s b t e = e

  pub lift_done :
      {A : Type 0} (o : Option A) (s t : Session W) (a : A)
      → Succeeds (lift o) s a t
      → (o ≡ some a) × (t ≡ s)
  unfolding lift
  lift_done none s t a e = cc
  lift_done (some b) s t a e = (cc, cc)

  pub attempt-done :
      {A : Type 0} (o : Option (Attempt A)) (s t : Session W) (a : A)
      → Succeeds (attempt o) s a t
      → (o ≡ some (Attempt.done a)) × (t ≡ s)
  unfolding attempt
  attempt-done none s t a e = cc
  attempt-done (some b) s t a e = (cc, cc)

  with_world-done :
      {A : Type 0} (con : Connection) (r : Attempt A × W) (a : A) (t : Session W)
      → with_world con r ≡ some (Attempt.done a, t)
      → (r ≡ (Attempt.done a, t.world)) × (t.con ≡ con)
  with_world-done con (x, w) a t e =
      let same : (x, record { con = con; world = w }) ≡ (Attempt.done a, t) = cc in
      let first : x ≡ Attempt.done a = ap (λ (p : Attempt _ × Session W). p.0) same in
      let second : record { con = con; world = w } ≡ t =
        ap (λ (p : Attempt _ × Session W). p.1) same in
      (
        λ i. (first i, (ap (λ (s : Session W). s.world) second) i),
        sym (ap (λ (s : Session W). s.con) second),
      )

  pub call-done :
      {A : Type 0} (f : Connection → W → Attempt A × W) (s t : Session W) (a : A)
      → Succeeds (call f) s a t
      → (f s.con s.world ≡ (Attempt.done a, t.world)) × (t.con ≡ s.con)
  unfolding call
  call-done f s t a e = with_world-done s.con (f s.con s.world) a t e

  pub bind_attempt-done :
      {A B : Type 0} (o : Option (Attempt A)) (f : A → Run W B) (s : Session W) (b : B)
      (t : Session W)
      → Succeeds (attempt o >>= f) s b t
      → (a : A) × (o ≡ some (Attempt.done a)) × Succeeds (f a) s b t
  unfolding attempt ◌>>=◌
  bind_attempt-done none f s b t e = cc
  bind_attempt-done (some (Attempt.done a)) f s b t e = (a, refl, e)
  bind_attempt-done (some (Attempt.failed x)) f s b t e = cc

  bind_world_done :
      {A B : Type 0} (con : Connection) (r : Attempt A × W) (f : A → Run W B) (b : B)
      (t : Session W)
      → then_run f (with_world con r) ≡ some (Attempt.done b, t)
      → (a : A) × (w : W) × (r ≡ (Attempt.done a, w))
        × Succeeds (f a) (record { con = con; world = w }) b t
  bind_world_done con (Attempt.done a, w) f b t e = (a, w, refl, e)
  bind_world_done con (Attempt.failed x, w) f b t e = cc

  pub bind_call-done :
      {A B : Type 0} (g : Connection → W → Attempt A × W) (f : A → Run W B) (s : Session W) (b : B)
      (t : Session W)
      → Succeeds (call g >>= f) s b t
      → (a : A) × (w : W) × (g s.con s.world ≡ (Attempt.done a, w))
        × Succeeds (f a) (record { con = s.con; world = w }) b t
  unfolding call ◌>>=◌
  bind_call-done g f s b t e = bind_world_done s.con (g s.con s.world) f b t e

  pub bind_lift_done :
      {A B : Type 0} (o : Option A) (f : A → Run W B) (s : Session W) (b : B) (t : Session W)
      → Succeeds (lift o >>= f) s b t
      → (a : A) × (o ≡ some a) × Succeeds (f a) s b t
  unfolding lift ◌>>=◌
  bind_lift_done none f s b t e = cc
  bind_lift_done (some a) f s b t e = (a, refl, e)
