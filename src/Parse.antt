-- ===== src/Parse.antt =====
-- The connection string parser, src/mcon/parse.c: the options that a connection string may set, the
-- split into names and values, the hosts, and the copies of what was parsed.
pub mod Outcome
pub mod Tags
pub mod Options
pub mod Store
pub mod Chain
pub mod Keeps
pub mod KeepsEach
pub mod KeepsAll
pub mod TagString
pub mod OptionString
pub mod Slices
pub mod OptionList
pub mod Hosts
pub mod Spec
pub mod HostList
pub mod SpecString
pub mod Login
pub mod Copy
