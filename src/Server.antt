-- ===== src/Server.antt =====
-- internal/server/config.go: the validation of the server's configuration. A duration is a
-- number of nanoseconds.
pub mod Port
pub mod Lifecycle
mod Tests
use gospidertrap.Common.{◌||◌, Option, none, some, ◌++◌, Text, codes, if◌then◌else◌}
use gospidertrap.Common.Int.{ℤ, pos, lt_int}
use gospidertrap.Strings.Number.{atoi}

pub record Config : Type 0 where
  pub port : Text
  pub read_timeout : ℤ
  pub write_timeout : ℤ
  pub idle_timeout : ℤ
  pub max_header_bytes : ℤ

-- The error, or `none` if the configuration is valid.
unfoldable pub validate : Config → Option Text
validate c = elim (atoi c.port) [
  | none ↦ some (codes "invalid port number: " ++ c.port ++ codes " (must be numeric)")
  | some n ↦
      if lt_int n (pos 1) || lt_int (pos 65535) n
      then some (codes "invalid port number: " ++ c.port ++ codes " (must be between 1 and 65535)")
      else none
]
