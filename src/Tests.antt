-- ===== src/Tests.antt =====
-- Concrete inputs: each theorem with hypotheses at data that meets them, and runs of the definitions
-- that can be followed in the sources.
mod Data
mod Hash
mod Buffers
mod Sorting
mod ReadPreference
mod Parse
mod Manager
mod Bson
mod Server
mod Connection
mod Reply
mod Pool
mod Dangling
