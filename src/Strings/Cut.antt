-- ===== src/Strings/Cut.antt =====
-- `Split` and `LastIndex` on texts with and without the separator.
use gospidertrap.Common.{
  ℕ, ◌≡◌, refl, ap, none, some, [], ◌∷◌, ◌++◌, arith, Text, length, take, Lacks, append_assoc,
  append-nil,
}
use gospidertrap.Strings.{split_from, split, last_index}

pub last_index_of_Lacks : (b : ℕ) (s : Text) → Lacks b s → last_index b s ≡ none
unfolding last_index
last_index_of_Lacks b [] h = refl
last_index_of_Lacks b (c ∷ s) (ne, h) = rw (last_index_of_Lacks b s h) (ground arith)

-- The last occurrence is found behind any text, if none follows it.
pub last_index_found :
    (b : ℕ) (s t : Text) → Lacks b t → last_index b (s ++ b ∷ t) ≡ some (length s)
unfolding last_index
last_index_found b [] t h = rw (last_index_of_Lacks b t h) (ground arith)
last_index_found b (c ∷ s) t h = rw (last_index_found b s t h)

pub take-length-append : (s t : Text) → take (length s) (s ++ t) ≡ s
take-length-append [] t = refl
take-length-append (c ∷ s) t = ap (◌∷◌ c) (take-length-append s t)

split_from_first :
    (sep : ℕ) (cur s t : Text)
    → Lacks sep s
    → split_from sep cur (s ++ sep ∷ t) ≡ (cur ++ s) ∷ split_from sep [] t
unfolding split_from
split_from_first sep cur [] t h = rw append-nil (ground arith)
split_from_first sep cur (c ∷ s) t (ne, h) =
    ground (arith, split_from_first sep (cur ++ c ∷ []) s t h, append_assoc cur (c ∷ []) s)

-- The part before the first separator comes first.
pub split_first : (sep : ℕ) (s t : Text) → Lacks sep s → split (s ++ sep ∷ t) sep ≡ s ∷ split t sep
unfolding split
split_first sep s t h = split_from_first sep [] s t h

split_from_of_Lacks :
    (sep : ℕ) (cur s : Text) → Lacks sep s → split_from sep cur s ≡ (cur ++ s) ∷ []
unfolding split_from
split_from_of_Lacks sep cur [] h = rw append-nil
split_from_of_Lacks sep cur (c ∷ s) (ne, h) =
    ground (arith, split_from_of_Lacks sep (cur ++ c ∷ []) s h, append_assoc cur (c ∷ []) s)

pub split_of_Lacks : (sep : ℕ) (s : Text) → Lacks sep s → split s sep ≡ s ∷ []
unfolding split
split_of_Lacks sep s h = split_from_of_Lacks sep [] s h
