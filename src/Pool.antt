-- ===== src/Pool.antt =====
-- How src/mcon/manager.c gets a connection: the registry, the operations on connections and the
-- selection by read preference put together.
pub mod Effect
pub mod Triple
pub mod Establish
pub mod Single
pub mod Update
pub mod Handshake
pub mod Registered
pub mod SingleLaws
pub mod Blacklist
pub mod Topology
pub mod TopologyLaws
pub mod Replicaset
pub mod Message
pub mod Multiple
pub mod Api
pub mod ReplicasetLaws
pub mod MultipleLaws
pub mod ApiLaws
pub mod Forget
pub mod Destroyed
