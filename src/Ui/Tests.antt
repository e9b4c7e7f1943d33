-- ===== src/Ui/Tests.antt =====
-- Tests of the sizes and the summaries.
use gospidertrap.Common.{
  ℕ, ◌≡◌, refl, false, some, [], ◌∷◌, ◌++◌, arith, Text, codes, text_eq, get_elem?,
}
use gospidertrap.Common.Int.{pos}
use gospidertrap.Strings.Number.{itoa, format_digits}
use gospidertrap.Ui.{format_size, build_rate_limit_summary, build_persist_mode_summary}
use gospidertrap.Ui.Size.{IsScale, format_size_scaled}

-- The quotient without a fraction.
abbrev whole : ℕ → ℕ → Text
whole a b = itoa (pos a)

format_size_scaled_example :
    (div : ℕ) × (exp : ℕ) × (letter : ℕ) × (format_size whole (pos 10485760)
      ≡ some (whole 10485760 div ++ b' ' ∷ letter ∷ b'B' ∷ []))
    × (get_elem? (codes "KMGTPE") exp ≡ some letter)
    × IsScale 10485760 div exp
format_size_scaled_example = format_size_scaled whole 10485760 (omega arith) (omega arith)

rate_summary : build_rate_limit_summary (pos 10) (pos 20) ≡ codes "10 req/sec (burst: 20)"
unfolding build_rate_limit_summary itoa format_digits
rate_summary = refl

no_database : build_persist_mode_summary false [] (codes "data") ≡ codes "Disabled"
unfolding build_persist_mode_summary text_eq
no_database = refl
