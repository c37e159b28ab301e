-- ===== src/ReadPreference.antt =====
-- Server selection by read preference, src/mcon/read_preference.c: which connections are candidates,
-- how they are ordered, which are near enough, and which one is used.
pub mod Candidates
pub mod Find
pub mod Tags
pub mod Collect
pub mod Sound
pub mod Credentials
pub mod Sort
pub mod Order
pub mod Pick
pub mod Nearest
pub mod Negative
pub mod Preferred
pub mod PrimaryPreferred
pub mod SecondaryPreferred
pub mod Select
pub mod Writes
