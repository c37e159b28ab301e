-- ===== src/Connection.antt =====
-- The operations on a connection, src/mcon/connections.c: packets are sent and answered, and what the
-- server answers is stored in the connection.
pub mod Effect
pub mod Create
pub mod Keeps
pub mod Send
pub mod Ping
pub mod Clock
pub mod Kept
pub mod Reply
pub mod Tags
pub mod Discover
pub mod Decode
pub mod Ismaster
pub mod Version
pub mod Buildinfo
pub mod Frame
pub mod Identity
pub mod Invert
pub mod Sent
pub mod Sound
pub mod Outcome
pub mod Arrays
pub mod Meaning
pub mod Login
pub mod LoginFrame
pub mod Double
pub mod Sasl
