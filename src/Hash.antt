-- ===== src/Hash.antt =====
-- The connection hash, src/mcon/utils.c: `HOST:PORT;REPLSETNAME;DB/USERNAME/md5;PID`, with `-` for
-- no replica set and `.` for no credentials. The identity of a connection is this string.
pub mod Create
pub mod Split
pub mod Pid
pub mod RoundTrip
pub mod Size
