-- ===== src/Stats/Tracking.antt =====
-- A bounded map of counts against the history of the keys that were counted.
use gospidertrap.Common.{
  ℕ, ◌+◌, ◌≤◌, ◌<◌, ◌≡◌, ◌⊎◌, inl, inr, refl, Bool-cases, Option-cases, none, some, List, [], ◌∷◌,
  ◌++◌, arith, Text, text_eq_iff, ltb, length, length-append,
}
use gospidertrap.Stats.Table.{
  Counts, lookup, insert, lookup-insert, length-insert_old, length-insert_new, HasDistinctKeys,
  insert-HasDistinctKeys, track, total, occurrences,
}

pub occurrences-append :
    (k : Text) (xs ys : List Text) → occurrences k (xs ++ ys) ≡ occurrences k xs + occurrences k ys
occurrences-append k [] ys = omega arith
occurrences-append k (x ∷ xs) ys = ground (arith, occurrences-append k xs ys)

total-insert_old :
    (k : Text) (n : ℕ) (m : Counts) → lookup k m ≡ some n → total (insert k (n + 1) m) ≡ total m + 1
unfolding lookup insert
total-insert_old k n [] h = cc
total-insert_old k n ((j, x) ∷ m) h = ground (arith, total-insert_old k n m)

total-insert_new :
    (k : Text) (n : ℕ) (m : Counts) → lookup k m ≡ none → total (insert k n m) ≡ total m + n
unfolding lookup insert
total-insert_new k n [] h = omega arith
total-insert_new k n ((j, x) ∷ m) h = ground (arith, total-insert_new k n m)

-- The count of one key: exact if there is one, and missing only if the key was never seen or the
-- map is full.
abbrev pub TracksKey : ℕ → List Text → Counts → Text → Type 0
TracksKey limit seen m k =
    (lookup k m ≡ some (occurrences k seen))
    ⊎ ((lookup k m ≡ none) × ((occurrences k seen ≡ 0) ⊎ (length m ≡ limit)))

-- `m` counts the keys of `seen`, in at most `limit` entries.
pub record Tracks (limit : ℕ) (seen : List Text) (m : Counts) : Type 0 where
  pub key : (k : Text) → TracksKey limit seen m k
  pub fits : length m ≤ limit
  pub distinct : HasDistinctKeys m
  pub sum : total m ≤ length seen

pub Tracks-empty : (limit : ℕ) → Tracks limit [] []
unfolding lookup
Tracks-empty limit = record {
  key = λ k. inr (refl, inl refl);
  fits = omega arith;
  distinct = tt;
  sum = omega arith;
}

-- The state of the map when a key arrives: known, new with room, or new without room.
pub data Arrival (limit : ℕ) (k : Text) (m : Counts) : Type 0 where
  known : (n : ℕ) → lookup k m ≡ some n → track limit k m ≡ insert k (n + 1) m → Arrival limit k m
  fresh : lookup k m ≡ none → length m < limit → track limit k m ≡ insert k 1 m → Arrival limit k m
  dropped : lookup k m ≡ none → limit ≤ length m → track limit k m ≡ m → Arrival limit k m

pub arrival : (limit : ℕ) (k : Text) (m : Counts) → Arrival limit k m
unfolding track
arrival limit k m = elim (Option-cases (lookup k m)) [
  | inr (n, e) ↦ known n e (ground arith)
  | inl e ↦ elim (Bool-cases (ltb (length m) limit)) [
    | inl room ↦ fresh e (ground arith) (ground arith)
    | inr full ↦ dropped e (ground arith) (ground arith)
  ]
]

module _ (limit : ℕ) (seen : List Text) (m : Counts) (k : Text) (t : Tracks limit seen m) where
  track_key : Arrival limit k m → (j : Text) → TracksKey limit (seen ++ k ∷ []) (track limit k m) j
  track_key (known n e step) j = rw step (
      ground (
        arith,
        t.key k,
        t.key j,
        lookup-insert k j (n + 1) m,
        length-insert_old k (n + 1) n m e,
        text_eq_iff k j,
        occurrences-append j seen (k ∷ []),
      ))
  track_key (fresh e room step) j = rw step (
      ground (
        arith,
        t.key k,
        t.key j,
        lookup-insert k j 1 m,
        length-insert_new k 1 m e,
        text_eq_iff k j,
        occurrences-append j seen (k ∷ []),
      ))
  track_key (dropped e full step) j =
      rw step (ground (arith, t.key j, t.fits, text_eq_iff k j, occurrences-append j seen (k ∷ [])))

  track_bounds :
      Arrival limit k m
      → (length (track limit k m) ≤ limit)
        × HasDistinctKeys (track limit k m)
        × (total (track limit k m) ≤ length (seen ++ k ∷ []))
  track_bounds (known n e step) = rw step (
    omega (arith, length-insert_old k (n + 1) n m e, t.fits),
    insert-HasDistinctKeys k (n + 1) m t.distinct,
    omega (arith, total-insert_old k n m e, t.sum, length-append seen (k ∷ [])),
  )
  track_bounds (fresh e room step) = rw step (
    omega (arith, length-insert_new k 1 m e),
    insert-HasDistinctKeys k 1 m t.distinct,
    omega (arith, total-insert_new k 1 m e, t.sum, length-append seen (k ∷ [])),
  )
  track_bounds (dropped e full step) =
      rw step (t.fits, t.distinct, omega (arith, t.sum, length-append seen (k ∷ [])))

  pub track-Tracks : Tracks limit (seen ++ k ∷ []) (track limit k m)
  track-Tracks =
      let (fits, distinct, sum) = track_bounds (arrival limit k m) in
      record { key = track_key (arrival limit k m); fits = fits; distinct = distinct; sum = sum }
