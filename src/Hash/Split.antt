-- ===== src/Hash/Split.antt =====
-- `mongo_server_split_hash`, `mongo_server_hash_to_server` and `mongo_server_hash_to_pid`.
-- `none` is the use of the NULL that `strchr` returned, which is undefined. The out parameters are
-- all asked for; a caller that passes NULL for some gets the others.
use mongo_hhvm_driver.Base.{
  ◌>>=◌, ℕ, ◌+◌, ◌-◌, Option, none, some, [], ◌∷◌, leb, ◌==◌, if◌then◌else◌, length, take,
}
use mongo_hhvm_driver.Base.Int.{ℤ, pos}
use mongo_hhvm_driver.CLib.{Bytes, split_at, rsplit_at, atoi}

pub record Parts : Type 0 where
  pub host : Bytes
  pub port : ℤ
  pub repl_set_name : Option Bytes
  pub database : Option Bytes
  pub username : Option Bytes
  pub auth_hash : Option Bytes
  pub pid : ℤ

-- `*p`, the NUL at the end included
abbrev pub first : Bytes → ℕ
first [] = 0
first (c ∷ _) = c

-- strndup(s, semi - start), where a difference below 0 is a huge `size_t`: the whole of s.
abbrev pub dup_between : Bytes → ℕ → ℕ → Bytes
dup_between s start semi = if leb start semi then take (semi - start) s else s

-- Database, user name and digest. The `;` behind them is looked for from the start of the piece.
abbrev pub with_credentials : Parts → Bytes → Option Parts
with_credentials parts ptr = do
  (database, after_slash) ← split_at b'/' ptr
  (username, after_name) ← split_at b'/' after_slash
  (before_semi, after_semi) ← split_at b';' ptr
  let start = length database + 1 + length username + 1
  some (record parts {
    database = some database;
    username = some username;
    auth_hash = some (dup_between after_name start (length before_semi));
    pid = atoi after_semi;
  })

abbrev pub without_credentials : Parts → Bytes → Option Parts
without_credentials parts ptr = do
  (before_semi, after_semi) ← split_at b';' ptr
  some (record parts { pid = atoi after_semi })

unfoldable pub split_hash : Bytes → Option Parts
split_hash hash = do
  (host, after_colon) ← split_at b':' hash
  (port_digits, after_port) ← split_at b';' after_colon
  (name, after_name) ← split_at b';' after_port
  let parts : Parts = record {
    host = host;
    port = atoi after_colon;
    repl_set_name = if first after_port == b'-' then none else some name;
    database = none;
    username = none;
    auth_hash = none;
    pid = pos 0;
  }
  if first after_name == b'.'
      then without_credentials parts after_name
      else with_credentials parts after_name

-- mongo_server_hash_to_server
unfoldable pub hash_to_server : Bytes → Option Bytes
hash_to_server hash = do (server, rest) ← split_at b';' hash; some server

-- mongo_server_hash_to_pid
unfoldable pub hash_to_pid : Bytes → Option ℤ
hash_to_pid hash = do (before, digits) ← rsplit_at b';' hash; some (atoi digits)
