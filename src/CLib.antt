-- ===== src/CLib.antt =====
-- What the sources use of the C standard library, over byte strings: `strcmp`, `strcasecmp`,
-- `strchr`, `strrchr`, `strstr` at the start, `%d`, `strtol` and `atoi`, with glibc's choices where
-- the standard leaves one. A C string is the list of its bytes before the terminating NUL.
mod Split
mod Decimal
mod Equal
pub use Split.*
pub use Decimal.*
pub use Equal.*
unfoldable pub use Equal.{str_eq, str_case_eq, starts_with}
unfoldable pub use Split.{split_at, rsplit_at}
unfoldable pub use Decimal.{print_nat, print_int, strtol, atoi}
