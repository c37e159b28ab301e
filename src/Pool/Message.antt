-- ===== src/Pool/Message.antt =====
-- The message that `mongo_get_connection_multiple` collects for each server that failed.
use mongo_hhvm_driver.Base.{◌>>=◌, Option, some, if◌then◌else◌, ◌==◌}
use mongo_hhvm_driver.CLib.{Bytes, codes}
use mongo_hhvm_driver.Types.{ServerDef}
use mongo_hhvm_driver.Str.{Str, addl, add, add_int}

-- `none` also for a message that is NULL, which `strlen` may not read
unfoldable pub add_failure : Str → ServerDef → Option Bytes → Option Str
unfolding add add_int
add_failure messages server message = do
  separated ← if messages.l == 0 then some messages else addl messages (codes "; ")
  started ← add separated (codes "Failed to connect to: ")
  named ← add started server.host
  colon ← addl named (codes ":")
  port ← add_int colon server.port
  behind ← addl port (codes ": ")
  text ← message
  add behind text
