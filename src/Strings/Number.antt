-- ===== src/Strings/Number.antt =====
-- `strconv.Itoa` and `strconv.Atoi`.
use gospidertrap.Common.{
  ℕ, zero, suc, ◌+◌, ◌-◌, ◌*◌, ◌/◌, ◌%◌, ◌^◌, ◌≤◌, ◌<◌, ◌≡◌, ◌∙◌, Bool, true, ◌&&◌, Option, none,
  some, [], ◌∷◌, arith, Text, ltb, leb, ◌==◌, if◌then◌else◌, All, Bool-cases, inl, inr,
}
use gospidertrap.Common.Int.{ℤ, pos, negsuc}

-- The decimal digits of a number, before the digits already written. A number has no more digits
-- than its successor, so that with `suc n` rounds the loop ends for want of digits.
unfoldable pub format_digits : ℕ → ℕ → Text → Text
format_digits zero n acc = acc
format_digits (suc rounds) n acc =
    let rest = format_digits rounds (n / 10) ((48 + n % 10) ∷ acc) in
    if ltb n 10 then (48 + n) ∷ acc else rest

unfoldable pub itoa : ℤ → Text
itoa (pos n) = format_digits (suc n) n []
itoa (negsuc n) = b'-' ∷ format_digits (suc (suc n)) (suc n) []

abbrev pub is_digit : ℕ → Bool
is_digit c = leb 48 c && leb c 57

-- The number that digits write, behind those already read.
unfoldable pub parse_digits : ℕ → Text → Option ℕ
parse_digits acc [] = some acc
parse_digits acc (c ∷ s) =
    let rest = parse_digits (acc * 10 + (c - 48)) s in if is_digit c then rest else none

-- At least one digit, and a value of at most `limit`.
unfoldable pub parse_up_to : ℕ → Text → Option ℕ
parse_up_to limit [] = none
parse_up_to limit (c ∷ s) = elim (parse_digits 0 (c ∷ s)) [
  | none ↦ none
  | some n ↦ if leb n limit then some n else none
]

abbrev pub negated : ℕ → ℤ
negated zero = pos zero
negated (suc n) = negsuc n

abbrev pub as_positive : Option ℕ → Option ℤ
as_positive none = none
as_positive (some n) = some (pos n)

abbrev pub as_negative : Option ℕ → Option ℤ
as_negative none = none
as_negative (some n) = some (negated n)

-- An optional sign, and digits of a number in the range of `int`.
unfoldable pub atoi : Text → Option ℤ
atoi [] = none
atoi (c ∷ s) =
    if c == b'-'
    then as_negative (parse_up_to (2 ^ 63) s)
    else if c == b'+'
    then as_positive (parse_up_to (2 ^ 63 - 1) s)
    else as_positive (parse_up_to (2 ^ 63 - 1) (c ∷ s))

abbrev pub IsDigit : ℕ → Type 0
IsDigit c = (48 ≤ c) × (c ≤ 57)

-- More rounds than the number has digits write the digits, and nothing but digits.
pub format_digits-IsDigit :
    (rounds n : ℕ) (acc : Text) → All IsDigit acc → All IsDigit (format_digits rounds n acc)
unfolding format_digits
format_digits-IsDigit zero n acc h = h
format_digits-IsDigit (suc rounds) n acc h = elim (Bool-cases (ltb n 10)) [
  | inl e ↦ rw e ((omega arith, omega (arith, ltb_lt n e)), h)
  | inr e ↦
      rw e (
        format_digits-IsDigit rounds (n / 10) ((48 + n % 10) ∷ acc) ((omega arith, omega arith), h))
]
  where
    ltb_lt : (n : ℕ) → ltb n 10 ≡ true → n < 10
    ltb_lt n e = ground arith

parse_digits_last :
    (n : ℕ) (acc : Text) → parse_digits (n / 10) ((48 + n % 10) ∷ acc) ≡ parse_digits n acc
unfolding parse_digits
parse_digits_last n acc = ground arith

-- Reading the digits that were written goes on as from the number.
pub parse_digits-format_digits :
    (rounds n : ℕ) (acc : Text)
    → n < rounds
    → parse_digits 0 (format_digits rounds n acc) ≡ parse_digits n acc
unfolding format_digits
parse_digits-format_digits zero n acc h = absurd (omega arith)
parse_digits-format_digits (suc rounds) n acc h = elim (Bool-cases (ltb n 10)) [
  | inl e ↦ rw e (unfold parse_digits in ground arith)
  | inr e ↦ rw e (
      parse_digits-format_digits rounds (n / 10) ((48 + n % 10) ∷ acc) (ground arith)
      ∙ parse_digits_last n acc)
]
