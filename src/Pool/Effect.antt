-- ===== src/Pool/Effect.antt =====
-- The manager and the world as the state of the functions of src/mcon/manager.c, and an operation on a
-- connection as one on this state. The registry holds each connection by a pointer, so what an
-- operation changes in a registered connection is changed in its item.
use mongo_hhvm_driver.Base.{ℕ, Bool, true, false, Option, none, some, List, [], ◌∷◌, if◌then◌else◌}
use mongo_hhvm_driver.CLib.{Bytes, str_eq}
use mongo_hhvm_driver.Types.{Connection, ServerDef, ServerOptions}
use mongo_hhvm_driver.Hash.Create.{Md5}
use mongo_hhvm_driver.Manager.Registry.{Item, Manager, connection_deregister}
use mongo_hhvm_driver.Connection.Effect.{Attempt, Time, Io, Session, Run}
use mongo_hhvm_driver.Connection.Create.{Made, destroy, broken}
use mongo_hhvm_driver.Connection.Ping.{Intervals}
use mongo_hhvm_driver.Connection.Login.{Login}

pub record Pool (W : Type 0) : Type 0 where
  pub manager : Manager
  pub world : W

-- What does not change while the functions run: the callbacks, among them `authenticate`, the digest,
-- the process id and the intervals
pub record Setup (W : Type 0) : Type 0 where
  pub io : Io W
  pub authenticate : ServerOptions → ServerDef → Run W Login
  pub md5 : Md5
  pub pid : ℕ
  pub intervals : Intervals

abbrev pub Act : Type 0 → Type 0 → Type 0
Act W A = Pool W → Option (A × Pool W)

abbrev pub then_act : {W A B : Type 0} → (A → Act W B) → Option (A × Pool W) → Option (B × Pool W)
then_act f none = none
then_act f (some (a, s)) = f a s

infixl 5 ◌>>=◌
unfoldable pub ◌>>=◌ : {W A B : Type 0} → Act W A → (A → Act W B) → Act W B
◌>>=◌ m f s = then_act f (m s)

unfoldable pub return : {W A : Type 0} → A → Act W A
return a s = some (a, s)

unfoldable pub lift : {W A : Type 0} → Option A → Act W A
lift none s = none
lift (some a) s = some (a, s)

unfoldable pub get_manager : {W : Type 0} → Act W Manager
get_manager s = some (s.manager, s)

unfoldable pub set_manager : {W : Type 0} → Manager → Act W (Unit {0})
set_manager manager s = some (tt, record s { manager = manager })

abbrev pub with_world : {W : Type 0} → Manager → Option W → Option ((Unit {0}) × Pool W)
with_world manager none = none
with_world manager (some w) = some (tt, record { manager = manager; world = w })

unfoldable pub on_world : {W : Type 0} → (W → Option W) → Act W (Unit {0})
on_world f s = with_world s.manager (f s.world)

abbrev pub time_of : {W : Type 0} → Manager → Time × W → Option (Time × Pool W)
time_of manager (t, w) = some (t, record { manager = manager; world = w })

unfoldable pub now : {W : Type 0} → Io W → Act W Time
now io s = time_of s.manager (io.gettimeofday s.world)

abbrev pub out_of :
    {W A : Type 0}
    → Manager
    → Option (Attempt A × Session W)
    → Option ((Attempt A × Connection) × Pool W)
out_of manager none = none
out_of manager (some (result, session)) =
    some ((result, session.con), record { manager = manager; world = session.world })

-- An operation on a connection, with the connection as it is afterwards
unfoldable pub run_on : {W A : Type 0} → Connection → Run W A → Act W (Attempt A × Connection)
run_on con m s = out_of s.manager (m (record { con = con; world = s.world }))

unfoldable pub make : {W A : Type 0} → (Manager → W → Made W A) → Act W (Attempt A)
make f s =
    let made = f s.manager s.world in
    some (made.outcome, record { manager = made.manager; world = made.world })

-- The item of a connection after the connection changed
unfoldable pub update_item {ℓ} : {A : Type ℓ} → List (Item A) → Bytes → A → List (Item A)
update_item [] hash con = []
update_item (item ∷ items) hash con =
    let rest = update_item items hash con in
    if str_eq item.hash hash then record item { item_data = con } ∷ items else item ∷ rest

unfoldable pub update_connection : Manager → Connection → Manager
unfolding update_item
update_connection manager con = record manager {
  connections = update_item manager.connections con.hash con;
}

abbrev pub is_dangling : List Bytes → Bytes → Bool
is_dangling [] hash = false
is_dangling (freed ∷ rest) hash =
    let later = is_dangling rest hash in if str_eq freed hash then true else later

-- The pointer of an item is followed: undefined if its connection was freed.
unfoldable pub look_at : {W : Type 0} → Bytes → Act W (Unit {0})
look_at hash s = if is_dangling s.manager.dangling hash then none else some (tt, s)

abbrev pub data_of : List (Item Connection) → List Connection
data_of [] = []
data_of (item ∷ items) = item.item_data ∷ data_of items

-- The connections of the registry, in its order, by a loop that follows the pointer of every item
abbrev pub registered : Manager → Option (List Connection)
registered manager = elim manager.dangling [
  | [] ↦ some (data_of manager.connections)
  | freed ∷ rest ↦ none
]

module _ {W : Type 0} (setup : Setup W) where
  unfoldable pub destroy_broken : Connection → Act W (Unit {0})
  unfolding destroy
  destroy_broken con = on_world (destroy setup.io setup.pid con broken)

  abbrev pub destroy_if : Bool → Connection → Act W (Unit {0})
  destroy_if false con = return tt
  destroy_if true con = destroy_broken con

  -- mongo_manager_connection_deregister, with the destruction of the connection
  unfoldable pub deregister_connection : Connection → Act W (Unit {0})
  unfolding connection_deregister destroy_broken
  deregister_connection con = do
    manager ← get_manager
    let (left, found) = connection_deregister manager con
    stored ← set_manager left
    destroy_if found con

  -- An operation on a registered connection
  unfoldable pub run_registered :
      {A : Type 0} → Connection → Run W A → Act W (Attempt A × Connection)
  unfolding update_connection look_at
  run_registered con m = do
    seen ← look_at con.hash
    (result, changed) ← run_on con m
    manager ← get_manager
    stored ← set_manager (update_connection manager changed)
    return (result, changed)
