-- ===== src/Hash/Create.antt =====
-- `mongo_server_create_hash`, `mongo_server_create_hashed_password`. The process id is an argument,
-- and `mongo_util_md5_hex` (src/mcon/contrib) a parameter: the program relies on its digest being
-- hexadecimal digits.
use mongo_hhvm_driver.Base.{
  ℕ, ◌+◌, Bool, ◌&&◌, ◌||◌, Option, none, some, [], ◌∷◌, ◌++◌, ◌≡◌, true, leb, length,
}
use mongo_hhvm_driver.CLib.{Bytes, print_nat, print_int, is_digit}
use mongo_hhvm_driver.Types.{ServerDef}

abbrev pub is_hex : ℕ → Bool
is_hex c = is_digit c || leb b'a' c && leb c b'f'

abbrev pub AllHex : Bytes → Type 0
AllHex [] = Unit
AllHex (c ∷ cs) = (is_hex c ≡ true) × AllHex cs

pub record Md5 : Type 0 where
  pub hex : Bytes → Bytes
  pub hex_digits : (s : Bytes) → AllHex (hex s)

pub record Credentials : Type 0 where
  pub db : Bytes
  pub username : Bytes
  pub password : Bytes

all_three : Option Bytes → Option Bytes → Option Bytes → Option Credentials
all_three (some d) (some u) (some p) = some (record { db = d; username = u; password = p })
all_three _ _ _ = none

-- server_def->db && server_def->username && server_def->password
unfoldable pub credentials : ServerDef → Option Credentials
unfolding all_three
credentials def = all_three def.db def.username def.password

-- Each piece is written in front of what the later `sprintf`s append.
abbrev pub repl_piece : Option Bytes → Bytes → Bytes
repl_piece (some name) rest = name ++ (b';' ∷ rest)
repl_piece none rest = b'-' ∷ b';' ∷ rest

abbrev pub repl_size : Option Bytes → ℕ
repl_size (some name) = length name + 1
repl_size none = 0

module _ (md5 : Md5) (pid : ℕ) where
  -- The salt fits its buffer, so nothing of it is cut off: ten digits hold every process id.
  unfoldable pub create_hashed_password : Bytes → Bytes → Bytes
  create_hashed_password username password = md5.hex (print_nat pid ++ (password ++ username))

  abbrev pub credentials_piece : Option Credentials → Bytes → Bytes
  credentials_piece (some c) rest =
      c.db
      ++ (b'/'
          ∷ (c.username
              ++ (b'/' ∷ (create_hashed_password c.username c.password ++ (b';' ∷ rest)))))
  credentials_piece none rest = b'.' ∷ b';' ∷ rest

  -- What the `sprintf`s write, less the terminating NUL.
  unfoldable pub create_hash : ServerDef → Bytes
  create_hash def =
      def.host
      ++ (b':'
          ∷ (print_int def.port
              ++ (b';'
                  ∷ repl_piece def.repl_set_name
                      (credentials_piece (credentials def) (print_nat pid)))))

  abbrev pub credentials_size : Option Credentials → ℕ
  credentials_size (some c) =
      length c.db
      + 1
      + length c.username
      + 1
      + length (create_hashed_password c.username c.password)
      + 1
  credentials_size none = 0

  -- `size`, the length of the allocated block.
  unfoldable pub hash_size : ServerDef → ℕ
  hash_size def =
      length def.host
      + 1
      + 5
      + 1
      + repl_size def.repl_set_name
      + credentials_size (credentials def)
      + 10
