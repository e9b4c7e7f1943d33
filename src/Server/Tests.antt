-- ===== src/Server/Tests.antt =====
-- Tests of the validation.
use gospidertrap.Common.{◌↔◌, ◌≡◌, refl, none, codes, arith}
use gospidertrap.Common.Int.{pos, ◌≤ℤ◌}
use gospidertrap.Strings.Number.{itoa, format_digits}
use gospidertrap.Server.{Config, validate}
use gospidertrap.Server.Port.{validate_iff}

abbrev usual : Config
usual = record {
  port = codes "8000";
  read_timeout = pos 5;
  write_timeout = pos 30;
  idle_timeout = pos 120;
  max_header_bytes = pos 1048576;
}

validate_iff_example : (validate usual ≡ none) ↔ ((pos 1 ≤ℤ pos 8000) × (pos 8000 ≤ℤ pos 65535))
validate_iff_example =
    validate_iff usual (pos 8000) (unfold itoa format_digits in refl) (omega arith, omega arith)
