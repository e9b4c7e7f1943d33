-- ===== src/Ui/Size.antt =====
-- internal/ui/banner.go: `FormatSize` on every `int`.
use gospidertrap.Common.{
  ℕ, suc, ◌*◌, ◌/◌, ◌^◌, ◌≤◌, ◌<◌, ◌≡◌, refl, true, some, [], ◌∷◌, ◌++◌, arith, Text, codes, leb,
  get_elem?, get_elem?-total, Bool-cases, inl, inr,
}
use gospidertrap.Common.Int.{pos}
use gospidertrap.Ui.{size_loop, format_large, format_size}

-- `div` is the largest power of 1024 that is no larger than the size.
abbrev pub IsScale : ℕ → ℕ → ℕ → Type 0
IsScale bytes div exp = (exp ≤ 5) × (div ≡ 1024 ^ suc exp) × (div ≤ bytes) × (bytes < div * 1024)

size_loop-IsScale :
    (b : ℕ)
    → 1024 ≤ b
    → b < 2 ^ 63
    → (div : ℕ) × (exp : ℕ) × (size_loop 7 (b / 1024) 1024 0 ≡ some (div, exp)) × IsScale b div exp
unfolding size_loop
size_loop-IsScale b lo hi = elim (Bool-cases (leb 1024 (b / 1024))) [
  | inr e0 ↦ (1024, 0, rw (e0) refl, ground arith)
  | inl e0 ↦ elim (Bool-cases (leb 1024 (b / 1024 / 1024))) [
    | inr e1 ↦ (1048576, 1, rw (e0, e1) refl, ground arith)
    | inl e1 ↦ elim (Bool-cases (leb 1024 (b / 1024 / 1024 / 1024))) [
      | inr e2 ↦ (1073741824, 2, rw (e0, e1, e2) refl, ground arith)
      | inl e2 ↦ elim (Bool-cases (leb 1024 (b / 1024 / 1024 / 1024 / 1024))) [
        | inr e3 ↦ (1099511627776, 3, rw (e0, e1, e2, e3) refl, ground arith)
        | inl e3 ↦ elim (Bool-cases (leb 1024 (b / 1024 / 1024 / 1024 / 1024 / 1024))) [
          | inr e4 ↦ (1125899906842624, 4, rw (e0, e1, e2, e3, e4) refl, ground arith)
          | inl e4 ↦ (1152921504606846976, 5, rw (e0, e1, e2, e3, e4) (ground arith), ground arith)
        ]
      ]
    ]
  ]
]

letter_at : (exp : ℕ) → exp ≤ 5 → (letter : ℕ) × (get_elem? (codes "KMGTPE") exp ≡ some letter)
letter_at exp h = get_elem?-total (codes "KMGTPE") exp (omega (arith, h))

-- For every size from 1024 to the largest `int` the loop ends within its rounds, the index into
-- the letters is in range, and the size is shown as the quotient by the largest power of 1024 that
-- is no larger, with the letter of that power.
pub format_size_scaled :
    (quotient : ℕ → ℕ → Text) (b : ℕ)
    → 1024 ≤ b
    → b < 2 ^ 63
    → (div : ℕ) × (exp : ℕ) × (letter : ℕ) × (format_size quotient (pos b)
        ≡ some (quotient b div ++ b' ' ∷ letter ∷ b'B' ∷ []))
      × (get_elem? (codes "KMGTPE") exp ≡ some letter)
      × IsScale b div exp
unfolding format_size format_large
format_size_scaled quotient b lo hi =
    let (div, exp, looped, scale) = size_loop-IsScale b lo hi in
    let (letter, found) = letter_at exp scale.0 in
    let large : leb 1024 b ≡ true = ground arith in
    (div, exp, letter, rw (large, looped, found, format_size, format_large) refl, found, scale)
