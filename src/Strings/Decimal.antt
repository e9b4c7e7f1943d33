-- ===== src/Strings/Decimal.antt =====
-- Reading back what was written: `strconv.Atoi` after `strconv.Itoa`.
use gospidertrap.Common.{
  ℕ, zero, suc, ◌+◌, ◌-◌, ◌/◌, ◌%◌, ◌^◌, ◌≤◌, ◌≡◌, ◌∙◌, refl, some, [], ◌∷◌, arith, Text, ltb,
  Bool-cases, inl, inr,
}
use gospidertrap.Common.Int.{ℤ, pos, negsuc, IsInt}
use gospidertrap.Strings.Number.{
  itoa, atoi, format_digits, parse_digits, parse_up_to, IsDigit, format_digits-IsDigit,
  parse_digits-format_digits,
}

-- At least one digit is written.
format_digits_head :
    (rounds n : ℕ) (acc : Text) → (c : ℕ) × (s : Text) × (format_digits (suc rounds) n acc ≡ c ∷ s)
unfolding format_digits
format_digits_head zero n acc = elim (Bool-cases (ltb n 10)) [
  | inl e ↦ (48 + n, acc, rw e refl)
  | inr e ↦ (48 + n % 10, acc, rw e refl)
]
format_digits_head (suc rounds) n acc = elim (Bool-cases (ltb n 10)) [
  | inl e ↦ (48 + n, acc, rw e refl)
  | inr e ↦ rw e (format_digits_head rounds (n / 10) ((48 + n % 10) ∷ acc))
]

parse_up_to_of :
    (limit n : ℕ) (c : ℕ) (s : Text)
    → parse_digits 0 (c ∷ s) ≡ some n
    → n ≤ limit
    → parse_up_to limit (c ∷ s) ≡ some n
unfolding parse_up_to
parse_up_to_of limit n c s h le = rw (h, parse_up_to) (ground arith)

-- The digits that `Itoa` writes are read as their number, up to a limit that is no smaller.
parse_up_to-format_digits :
    (limit n : ℕ)
    → n ≤ limit
    → (c : ℕ) × (s : Text) × (format_digits (suc n) n [] ≡ c ∷ s)
      × IsDigit c
      × (parse_up_to limit (c ∷ s) ≡ some n)
parse_up_to-format_digits limit n h =
    let (c, s, e) = format_digits_head n n [] in
    let digits = rw e at (format_digits-IsDigit (suc n) n [] tt) in
    let value = rw e at (parse_digits-format_digits (suc n) n [] (omega arith)) in
    (c, s, e, digits.0, parse_up_to_of limit n c s (value ∙ unfold parse_digits in refl) h)

-- Every `int` is read back from the digits that were written for it.
pub atoi-itoa : (z : ℤ) → IsInt z → atoi (itoa z) ≡ some z
unfolding atoi itoa
atoi-itoa (pos n) h =
    let (c, s, e, digit, value) = parse_up_to-format_digits (2 ^ 63 - 1) n (ground arith) in
    rw e (ground (arith, value))
atoi-itoa (negsuc n) h =
    let (c, s, e, digit, value) = parse_up_to-format_digits (2 ^ 63) (suc n) (ground arith) in
    rw (e, value) refl
