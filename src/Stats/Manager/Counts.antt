-- ===== src/Stats/Manager/Counts.antt =====
-- internal/stats/manager.go: the counts of a table as a map in memory.
use gospidertrap.Common.{
  ℕ, ◌+◌, ◌≤◌, ◌<◌, ◌≡◌, refl, ap, sym, ◌∙◌, ◌⊎◌, inl, inr, true, Option, none, some, List, [], ◌∷◌,
  ◌++◌, arith, Text, text_eq, text_eq_iff, ltb, length, Bool-cases, append_assoc, append-nil,
}
use gospidertrap.Stats.{Time}
use gospidertrap.Stats.Table.{
  Counts, lookup, insert, lookup-insert, length-insert_old, length-insert_new, HasDistinctKeys,
  track,
}
use gospidertrap.Stats.Tracking.{arrival, known, fresh, dropped}
use gospidertrap.Stats.Database.{CountRow, Engine, seen, count_entries, fill_counts}

abbrev count_of : Option CountRow → Option ℕ
count_of none = none
count_of (some row) = some row.count

lookup-count_entries :
    (k : Text) (rows : List (Text × CountRow))
    → lookup k (count_entries rows) ≡ count_of (lookup k rows)
unfolding lookup
lookup-count_entries k [] = refl
lookup-count_entries k ((j, row) ∷ rows) = ground (arith, lookup-count_entries k rows)

length-count_entries : (rows : List (Text × CountRow)) → length (count_entries rows) ≡ length rows
length-count_entries [] = refl
length-count_entries ((j, row) ∷ rows) = omega (arith, length-count_entries rows)

insert-count_entries :
    (k : Text) (row : CountRow) (rows : List (Text × CountRow))
    → insert k row.count (count_entries rows) ≡ count_entries (insert k row rows)
unfolding insert
insert-count_entries k row [] = refl
insert-count_entries k row ((j, r) ∷ rows) = elim (Bool-cases (text_eq j k)) [
  | inl e ↦ rw e refl
  | inr e ↦ rw e (ap (◌∷◌ (j, r.count)) (insert-count_entries k row rows))
]

pub length-track : (limit : ℕ) (k : Text) (m : Counts) → length m ≤ length (track limit k m)
length-track limit k m = elim (arrival limit k m) [
  | known n e step ↦ rw step (omega (arith, length-insert_old k (n + 1) n m e))
  | fresh e room step ↦ rw step (omega (arith, length-insert_new k 1 m e))
  | dropped e full step ↦ rw step (omega arith)
]

-- While the map is not full a request changes both in the same way.
pub track-count_entries :
    (limit : ℕ) (k : Text) (now : Time) (rows : List (Text × CountRow)) (found : Option CountRow)
    → lookup k rows ≡ found
    → length (count_entries rows) < limit
    → track limit k (count_entries rows) ≡ count_entries (insert k (seen now found) rows)
unfolding track
track-count_entries limit k now rows none e room =
    let room : ltb (length (count_entries rows)) limit ≡ true = ground arith in
    rw (lookup-count_entries k rows, e, room, track) (insert-count_entries k (seen now none) rows)
track-count_entries limit k now rows (some row) e room =
    rw (lookup-count_entries k rows, e, track) (insert-count_entries k (seen now (some row)) rows)

module _ (engine : Engine) where
  insert_last :
      (k : Text) (n : ℕ) (m : Counts) → lookup k m ≡ none → insert k n m ≡ m ++ (k, n) ∷ []
  unfolding lookup insert
  insert_last k n [] e = refl
  insert_last k n ((j, x) ∷ m) e = elim (Bool-cases (text_eq j k)) [
    | inl h ↦ ground (arith, h)
    | inr h ↦ rw h (ap (◌∷◌ (j, x)) (insert_last k n m (ground (arith, h))))
  ]

  rest_apart :
      (key : Text) (row : CountRow) (rows : List (Text × CountRow)) (m : Counts) (k : Text)
      → lookup key m ≡ none
      → lookup key rows ≡ none
      → (lookup k m ≡ none) ⊎ (lookup k ((key, row) ∷ rows) ≡ none)
      → (lookup k (m ++ (key, row.count) ∷ []) ≡ none) ⊎ (lookup k rows ≡ none)
  unfolding lookup
  rest_apart key row rows m k old absent apart =
      rw (← insert_last key row.count m old, lookup-insert key k row.count m)
        (ground (arith, text_eq_iff key k, absent, apart))

  pub fill_counts_lem :
      (rows : List (Text × CountRow)) (m : Counts)
      → HasDistinctKeys rows
      → ((k : Text) → (lookup k m ≡ none) ⊎ (lookup k rows ≡ none))
      → fill_counts engine rows m ≡ m ++ count_entries rows
  unfolding fill_counts lookup
  fill_counts_lem [] m distinct apart = sym (append-nil m)
  fill_counts_lem ((key, row) ∷ rows) m (absent, distinct) apart =
      let old : lookup key m ≡ none = ground (arith, apart key, text_eq_iff key key) in
      rw (insert_last key row.count m old) (
        fill_counts_lem rows (m ++ (key, row.count) ∷ []) distinct
          (λ k. rest_apart key row rows m k old absent (apart k))
        ∙ append_assoc m ((key, row.count) ∷ []) (count_entries rows))
