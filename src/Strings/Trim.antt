-- ===== src/Strings/Trim.antt =====
-- `TrimSpace` on texts that hold no white space at their ends.
use gospidertrap.Common.{◌≡◌, refl, [], ◌∷◌, arith, Text, length, ◌≤◌}
use gospidertrap.Strings.{trim_left}

-- Trimming never lengthens a text.
length-trim_left : (s : Text) → length (trim_left s) ≤ length s
unfolding trim_left
length-trim_left [] = omega arith
length-trim_left (a ∷ []) = ground arith
length-trim_left (a ∷ b ∷ []) = ground (arith, length-trim_left (b ∷ []))
length-trim_left (a ∷ b ∷ c ∷ s) =
    ground (arith, length-trim_left (b ∷ c ∷ s), length-trim_left (c ∷ s), length-trim_left s)

trim_left_idem : (s : Text) → trim_left (trim_left s) ≡ trim_left s
unfolding trim_left
trim_left_idem [] = refl
trim_left_idem (a ∷ []) = ground arith
trim_left_idem (a ∷ b ∷ []) = ground (arith, trim_left_idem (b ∷ []))
trim_left_idem (a ∷ b ∷ c ∷ s) =
    ground (arith, trim_left_idem (b ∷ c ∷ s), trim_left_idem (c ∷ s), trim_left_idem s)
