-- ===== src/Pool/Forget.antt =====
-- The callback `forget` in `mongo_filter_connections`: it runs for each connection of the registry that
-- another process opened, in the order of the registry.
use mongo_hhvm_driver.Base.{Option, none, some, List, [], ◌∷◌}
use mongo_hhvm_driver.Types.{Connection, ReadPreference}
use mongo_hhvm_driver.ReadPreference.Candidates.{Filtered, find_all_candidate_servers}
use mongo_hhvm_driver.Connection.Effect.{Io}
use mongo_hhvm_driver.Pool.Effect.{Setup, Act, on_world}

module _ {W : Type 0} (io : Io W) where
  unfoldable forget_all : List Connection → W → W
  forget_all [] w = w
  forget_all (con ∷ connections) w = forget_all connections (io.forget con w)

  abbrev forget_filtered : Option Filtered → W → Option W
  forget_filtered none w = none
  forget_filtered (some filtered) w = some (forget_all filtered.forgotten w)

-- The calls of the callback while the candidates for a read preference are collected
unfoldable pub forget_others :
    {W : Type 0} → Setup W → ReadPreference → List Connection → Act W (Unit {0})
unfolding forget_all find_all_candidate_servers
forget_others setup rp connections =
    on_world (forget_filtered setup.io (find_all_candidate_servers setup.pid rp connections))
