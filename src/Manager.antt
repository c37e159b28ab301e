-- ===== src/Manager.antt =====
-- The connection manager, src/mcon/manager.c: the lists of connections and of blacklisted servers,
-- the callbacks of a connection, the check of the wire version, and the list of known servers.
pub mod Registry
pub mod Laws
pub mod Wire
pub mod Contains
pub mod Invariant
