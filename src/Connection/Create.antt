-- ===== src/Connection/Create.antt =====
-- `mongo_connection_create` and `mongo_connection_destroy`. Logging and freeing are left out.
use mongo_hhvm_driver.Base.{
  ◌>>=◌, ℕ, Bool, false, ◌&&◌, not, Option, some, List, [], ◌∷◌, if◌then◌else◌, ◌==◌,
}
use mongo_hhvm_driver.Base.Int.{pos, eqb_ℤ}
use mongo_hhvm_driver.CLib.{Bytes}
use mongo_hhvm_driver.Types.{NodeType, Callback, Connection, ServerDef, ServerOptions}
use mongo_hhvm_driver.Hash.Split.{hash_to_pid}
use mongo_hhvm_driver.Manager.Registry.{Manager, blacklist_register}
use mongo_hhvm_driver.Connection.Effect.{Attempt, Io}

-- The connection before it is connected. A rand() is not negative.
unfoldable pub fresh : ℕ → Bytes → Connection
fresh rand hash = record {
  last_ping = 0;
  ping_ms = pos 0;
  connected = false;
  last_ismaster = pos 0;
  last_replcheck = pos 0;
  last_reqid = rand;
  socket = 0;
  connection_type = NodeType.standalone;
  version = record { major = pos 1; minor = pos 8; mini = pos 0; build = pos 0 };
  min_wire_version = pos 0;
  max_wire_version = pos 0;
  max_bson_size = pos 4194304;
  max_message_size = pos 8388608;
  max_write_batch_size = pos 1000;
  tags = [];
  hash = hash;
  cleanup_list = [];
}

-- What a step of the manager leaves behind
pub record Made (W A : Type 0) : Type 0 where
  pub outcome : Attempt A
  pub manager : Manager
  pub world : W

-- The socket is stored, or the server is blacklisted from now on; `now` is the time that
-- mongo_manager_blacklist_register reads.
unfoldable pub connected_or :
    {W : Type 0} → Io W → Manager → Connection → Attempt ℕ × W → Made W Connection
connected_or io manager con (Attempt.done socket, w) = record {
  outcome = Attempt.done (record con { socket = socket });
  manager = manager;
  world = w;
}
connected_or io manager con (Attempt.failed e, w) =
    let (time, w') = io.gettimeofday w in
    record {
      outcome = Attempt.failed e;
      manager = blacklist_register manager time.sec con;
      world = w';
    }

-- mongo_connection_create
unfoldable pub create :
    {W : Type 0} → Io W → Manager → Bytes → ServerDef → ServerOptions → W → Made W Connection
unfolding fresh connected_or blacklist_register
create io manager hash server_def options w =
    let (number, w') = io.rand w in
    connected_or io manager (fresh number hash) (io.connect server_def options w')

-- The callbacks run in order; one without data does nothing.
unfoldable pub run_callbacks : {W : Type 0} → Io W → List Callback → W → W
run_callbacks io [] w = w
run_callbacks io (callback ∷ callbacks) w =
    run_callbacks io callbacks (if callback.callback_data == 0 then w else io.cleanup callback w)

-- MONGO_CLOSE_BROKEN
abbrev pub broken : ℕ
broken = 2

-- mongo_connection_destroy: only the process that opened the connection closes it.
unfoldable pub destroy : {W : Type 0} → Io W → ℕ → Connection → ℕ → W → Option W
unfolding run_callbacks
destroy io pid con why w = do
  connection_pid ← hash_to_pid con.hash
  some (
      if eqb_ℤ (pos pid) connection_pid
      then if con.socket == 0 then w else run_callbacks io con.cleanup_list (io.close con why w)
      else w)

-- Whether mongo_connection_destroy frees the connection
unfoldable pub is_freed : ℕ → Connection → Option Bool
is_freed pid con = do
  connection_pid ← hash_to_pid con.hash
  some (eqb_ℤ (pos pid) connection_pid && not (con.socket == 0))
