-- ===== src/Main/Options.antt =====
-- main.go: the options of the command line, after package flag has read them, and their checks.
use gospidertrap.Common.{
  Bool, false, not, ◌&&◌, Option, none, some, [], Text, codes, text_eq, if◌then◌else◌,
}
use gospidertrap.Common.Int.{ℤ, pos, lt_int}
use gospidertrap.Paths.{join}

pub record Options : Type 0 where
  pub port : Text
  pub html_file : Text
  pub wordlist_file : Text
  pub endpoint : Text
  pub data_dir : Text
  pub db_path : Text
  pub use_files : Bool
  pub rate_limit : ℤ
  pub rate_burst : ℤ
  pub use_https : Bool
  pub trust_proxy : Bool

abbrev pub default_port : Text
default_port = codes "8000"

abbrev pub default_data_dir : Text
default_data_dir = codes "data"

-- What the flags are without arguments.
abbrev pub default_options : Options
default_options = record {
  port = default_port;
  html_file = [];
  wordlist_file = [];
  endpoint = [];
  data_dir = default_data_dir;
  db_path = [];
  use_files = false;
  rate_limit = pos 10;
  rate_burst = pos 20;
  use_https = false;
  trust_proxy = false;
}

-- The message of the error that ends the program, or `none`.
unfoldable pub check_rates : Options → Option Text
check_rates o =
    if not (lt_int (pos 0) o.rate_limit)
    then some (codes "Rate limit must be positive")
    else if not (lt_int (pos 0) o.rate_burst)
    then some (codes "Rate limit burst must be positive")
    else if lt_int o.rate_burst o.rate_limit
    then some (codes "Rate limit burst should be >= rate limit for optimal performance")
    else none

-- `cfg.dbPath` after its default is set.
unfoldable pub database_path : Options → Text
database_path o =
    if text_eq o.db_path [] && not o.use_files && not (text_eq o.data_dir [])
    then join o.data_dir (codes "stats.db")
    else o.db_path
