-- ===== src/Server/Port.antt =====
-- internal/server/config.go: which ports are valid.
use gospidertrap.Common.{◌↔◌, ◌≡◌, none, arith}
use gospidertrap.Common.Int.{ℤ, pos, negsuc, IsInt, ◌≤ℤ◌}
use gospidertrap.Strings.Number.{itoa}
use gospidertrap.Strings.Decimal.{atoi-itoa}
use gospidertrap.Server.{Config, validate}

-- A port that is written in decimal digits, for any `int`, passes exactly if it is from 1 to 65535.
pub validate_iff :
    (c : Config) (z : ℤ)
    → c.port ≡ itoa z
    → IsInt z
    → (validate c ≡ none) ↔ ((pos 1 ≤ℤ z) × (z ≤ℤ pos 65535))
unfolding validate
validate_iff c (pos n) e h = rw (e, atoi-itoa (pos n) h, validate) (ground arith)
validate_iff c (negsuc n) e h = rw (e, atoi-itoa (negsuc n) h, validate) (ground arith)
