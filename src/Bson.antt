-- ===== src/Bson.antt =====
-- Reading BSON replies, src/mcon/mini_bson.c: the walk over the elements of a document and the search
-- for a field.
pub mod Reader
pub mod Fields
pub mod Located
pub mod Kind
pub mod ReadBack
pub mod Strings
pub mod Write
pub mod Packets
pub mod Written
pub mod Sealed
pub mod Commands
pub mod Document
pub mod Walk
pub mod Find
pub mod Regexp
pub mod Values
pub mod ReadAt
