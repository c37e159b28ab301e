-- ===== src/Connection/Version.antt =====
-- The version that `mongo_connection_get_server_version` reads from the reply.
use mongo_hhvm_driver.Base.{◌>>=◌, ℕ, Option, none, some}
use mongo_hhvm_driver.Base.Int.{ℤ}
use mongo_hhvm_driver.CLib.{Bytes, codes}
use mongo_hhvm_driver.Types.{Version, Connection}
use mongo_hhvm_driver.Bson.Fields.{find_as_array, array_find_next_int32}

abbrev pub number_or : ℤ → Option (Bytes × ℤ) → ℤ
number_or old none = old
number_or old (some (name, v)) = v

-- Where the walk through the array stands: the next number is read unless `bson_next` gave NULL.
abbrev pub next_number : Bytes → Option ℕ → ℤ → Option (ℤ × Option ℕ)
next_number buffer none old = some (old, none)
next_number buffer (some at) old =
    array_find_next_int32 buffer at >>= λ step. some (number_or old step.item, step.next_at)

-- The four numbers; one that is missing stays what it was.
unfoldable pub read_version : Bytes → Option ℕ → Version → Option Version
unfolding array_find_next_int32
read_version buffer at version = do
  (major, at₁) ← next_number buffer at version.major
  (minor, at₂) ← next_number buffer at₁ version.minor
  (mini, at₃) ← next_number buffer at₂ version.mini
  (build, at₄) ← next_number buffer at₃ version.build
  some (record { major = major; minor = minor; mini = mini; build = build })

-- The connection with the version of the reply
unfoldable pub store_version : Bytes → Connection → Option Connection
unfolding find_as_array read_version
store_version buffer con = do
  array ← find_as_array buffer 4 (codes "versionArray")
  version ← read_version buffer array con.version
  some (record con { version = version })
