-- ===== src/Pool/Triple.antt =====
-- What holds of the manager before and after a step, one rule for each kind of step.
use mongo_hhvm_driver.Base.{Option, none, some, ◌≡◌, refl, Bool-cases, inl, inr}
use mongo_hhvm_driver.CLib.{Bytes}
use mongo_hhvm_driver.Types.{Connection}
use mongo_hhvm_driver.Manager.Registry.{Manager}
use mongo_hhvm_driver.Connection.Effect.{Attempt, Time, Io, Session, Run}
use mongo_hhvm_driver.Connection.Create.{Made}
use mongo_hhvm_driver.Connection.Keeps.{Ensures, Keeps}
use mongo_hhvm_driver.Pool.Effect.{
  Pool, Act, then_act, ◌>>=◌, return, lift, get_manager, set_manager, with_world, on_world, time_of,
  now, out_of, run_on, make, is_dangling, look_at,
}

abbrev pub After : {W A : Type 0} → (A → Manager → Type 0) → Option (A × Pool W) → Type 0
After Q none = Unit
After Q (some (a, s)) = Q a s.manager

-- From a manager with P the step, if it ends, leads to a result and a manager with Q.
pub record Triple {W A : Type 0} (P : Manager → Type 0) (m : Act W A) (Q : A → Manager → Type 0)
    : Type 0 where
  pub holds : (s : Pool W) → P s.manager → After Q (m s)

module _ {W : Type 0} (P : Manager → Type 0) where
  then_act-After :
      {A B : Type 0} (R : A → Manager → Type 0) (Q : B → Manager → Type 0) (f : A → Act W B)
      (r : Option (A × Pool W))
      → ((a : A) → Triple (R a) (f a) Q)
      → After R r
      → After Q (then_act f r)
  then_act-After R Q f none k h = tt
  then_act-After R Q f (some (a, s)) k h = (k a).holds s h

  pub bind_Triple :
      {A B : Type 0} (R : A → Manager → Type 0) (Q : B → Manager → Type 0) (m : Act W A)
      (f : A → Act W B)
      → Triple P m R
      → ((a : A) → Triple (R a) (f a) Q)
      → Triple P (m >>= f) Q
  unfolding ◌>>=◌
  bind_Triple R Q m f p k = record { holds = λ s h. then_act-After R Q f (m s) k (p.holds s h) }

  pub return_Triple :
      {A : Type 0} (Q : A → Manager → Type 0) (a : A)
      → ((m : Manager) → P m → Q a m)
      → Triple {W = W} P (return a) Q
  unfolding return
  return_Triple Q a k = record { holds = λ s h. k s.manager h }

  pub lift_Triple :
      {A : Type 0} (Q : A → Manager → Type 0) (o : Option A)
      → ((a : A) (m : Manager) → o ≡ some a → P m → Q a m)
      → Triple {W = W} P (lift o) Q
  unfolding lift
  lift_Triple Q none k = record { holds = λ s h. tt }
  lift_Triple Q (some a) k = record { holds = λ s h. k a s.manager refl h }

  -- What follows a look at the manager may use what it has.
  pub get_manager_Triple :
      {B : Type 0} (Q : B → Manager → Type 0) (f : Manager → Act W B)
      → ((m : Manager) → P m → Triple (λ m'. m' ≡ m) (f m) Q)
      → Triple P (get_manager >>= f) Q
  unfolding get_manager ◌>>=◌
  get_manager_Triple Q f k = record { holds = λ s h. (k s.manager h).holds s refl }

  pub set_manager_Triple :
      (Q : Unit {0} → Manager → Type 0) (m : Manager)
      → ((m' : Manager) → P m' → Q tt m)
      → Triple {W = W} P (set_manager m) Q
  unfolding set_manager
  set_manager_Triple Q m k = record { holds = λ s h. k s.manager h }

  pub look_at_Triple : (hash : Bytes) → Triple {W = W} P (look_at hash) (λ _. P)
  unfolding look_at
  look_at_Triple hash = record {
    holds = λ s h. elim (Bool-cases (is_dangling s.manager.dangling hash)) [
      | inl freed ↦ rw freed tt
      | inr there ↦ rw there h
    ];
  }

  with_world-After :
      (Q : Unit {0} → Manager → Type 0) (m : Manager) (o : Option W)
      → Q tt m
      → After Q (with_world m o)
  with_world-After Q m none h = tt
  with_world-After Q m (some w) h = h

  pub on_world_Triple :
      (Q : Unit {0} → Manager → Type 0) (f : W → Option W)
      → ((m : Manager) → P m → Q tt m)
      → Triple P (on_world f) Q
  unfolding on_world
  on_world_Triple Q f k = record {
    holds = λ s h. with_world-After Q s.manager (f s.world) (k s.manager h);
  }

  time_of-After : (m : Manager) (r : Time × W) → P m → After (λ (t : Time). P) (time_of m r)
  time_of-After m (t, w) h = h

  pub now_Triple : (io : Io W) → Triple P (now io) (λ t. P)
  unfolding now
  now_Triple io = record { holds = λ s h. time_of-After s.manager (io.gettimeofday s.world) h }

  out_of-After :
      {A : Type 0} (R : Connection → Type 0) (m : Manager) (r : Option (Attempt A × Session W))
      → P m
      → Ensures R r
      → After (λ (r : Attempt A × Connection) m'. P m' × R r.1) (out_of m r)
  out_of-After R m none p h = tt
  out_of-After R m (some (a, session)) p h = (p, h)

  -- An operation on a connection does not touch the manager.
  pub run_on_Triple :
      {A : Type 0} (R : Connection → Type 0) (con : Connection) (m : Run W A)
      → Keeps R m
      → R con
      → Triple P (run_on con m) (λ (r : Attempt A × Connection) m'. P m' × R r.1)
  unfolding run_on
  run_on_Triple R con m k r = record {
    holds = λ s h.
        out_of-After R s.manager (m (record { con = con; world = s.world })) h
          (k.holds (record { con = con; world = s.world }) r);
  }

  pub make_Triple :
      {A : Type 0} (Q : Attempt A → Manager → Type 0) (f : Manager → W → Made W A)
      → ((m : Manager) (w : W) → P m → Q (f m w).outcome (f m w).manager)
      → Triple P (make f) Q
  unfolding make
  make_Triple Q f k = record { holds = λ s h. k s.manager s.world h }

pub weaken_Triple :
    {W A : Type 0} {P P' : Manager → Type 0} {m : Act W A} (Q : A → Manager → Type 0)
    → Triple P m Q
    → ((m : Manager) → P' m → P m)
    → Triple P' m Q
weaken_Triple Q t k = record { holds = λ s h. t.holds s (k s.manager h) }

After-mono :
    {W A : Type 0} (Q Q' : A → Manager → Type 0) (r : Option (A × Pool W))
    → ((a : A) (m : Manager) → Q a m → Q' a m)
    → After Q r
    → After Q' r
After-mono Q Q' none k h = tt
After-mono Q Q' (some (a, s)) k h = k a s.manager h

pub consequence_Triple :
    {W A : Type 0} {P : Manager → Type 0} {m : Act W A} (Q Q' : A → Manager → Type 0)
    → Triple P m Q
    → ((a : A) (m : Manager) → Q a m → Q' a m)
    → Triple P m Q'
consequence_Triple {m = m} Q Q' t k = record {
  holds = λ s h. After-mono Q Q' (m s) k (t.holds s h);
}
