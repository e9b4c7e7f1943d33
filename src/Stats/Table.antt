-- ===== src/Stats/Table.antt =====
-- Go's `map[string]int`. An association list with one entry for each key; the order of its entries
-- is the order in which a `range` loop happens to visit the map.
use gospidertrap.Common.{
  ℕ, ◌+◌, ◌≤◌, ◌<◌, ◌≡◌, refl, Option, none, some, List, [], ◌∷◌, arith, Text, text_eq, text_eq_iff,
  ltb, if◌then◌else◌, length, Bool-cases, inl, inr,
}

module _ {ℓ} {V : Type ℓ} where
  -- `m[key]`, with `none` for a missing key.
  unfoldable pub lookup : Text → List (Text × V) → Option V
  lookup key [] = none
  lookup key ((first, here) ∷ rest) = if text_eq first key then some here else lookup key rest

  -- `m[key] = val`
  unfoldable pub insert : Text → V → List (Text × V) → List (Text × V)
  insert key val [] = (key, val) ∷ []
  insert key val ((first, here) ∷ rest) =
      if text_eq first key then (first, val) ∷ rest else (first, here) ∷ insert key val rest

  -- `delete(m, k)`
  unfoldable pub delete : Text → List (Text × V) → List (Text × V)
  delete k [] = []
  delete k ((j, w) ∷ m) = let rest = delete k m in if text_eq j k then rest else (j, w) ∷ rest

  pub lookup-insert :
      (key other : Text) (val : V) (table : List (Text × V))
      → lookup other (insert key val table)
        ≡ (if text_eq key other then some val else lookup other table)
  unfolding lookup insert
  lookup-insert key other val ((first, here) ∷ rest) = ground (
    arith,
    lookup-insert key other val rest,
    text_eq_iff key other,
    text_eq_iff first key,
    text_eq_iff first other,
  )
  lookup-insert key other val [] = refl

  pub lookup-delete :
      (k j : Text) (m : List (Text × V))
      → lookup j (delete k m) ≡ (if text_eq k j then none else lookup j m)
  unfolding lookup delete
  lookup-delete k j [] = ground arith
  lookup-delete k j ((i, w) ∷ m) =
      ground (arith, text_eq_iff k j, text_eq_iff i k, text_eq_iff i j, lookup-delete k j m)

  -- Writing to a key that is there keeps the size; a new key adds one.
  pub length-insert_old :
      (k : Text) (v w : V) (m : List (Text × V))
      → lookup k m ≡ some w
      → length (insert k v m) ≡ length m
  unfolding lookup insert
  length-insert_old k v w [] h = cc
  length-insert_old k v w ((j, x) ∷ m) h = ground (arith, length-insert_old k v w m)

  pub length-insert_new :
      (k : Text) (v : V) (m : List (Text × V))
      → lookup k m ≡ none
      → length (insert k v m) ≡ length m + 1
  unfolding lookup insert
  length-insert_new k v [] h = omega arith
  length-insert_new k v ((j, x) ∷ m) h = ground (arith, length-insert_new k v m)

  pub length-delete : (k : Text) (m : List (Text × V)) → length (delete k m) ≤ length m
  unfolding delete
  length-delete k [] = omega arith
  length-delete k ((j, w) ∷ m) = ground (arith, length-delete k m)

  -- Deleting a key that is there frees an entry.
  pub length-delete_old :
      (k : Text) (v : V) (m : List (Text × V))
      → lookup k m ≡ some v
      → length (delete k m) < length m
  unfolding lookup delete
  length-delete_old k v [] h = cc
  length-delete_old k v ((j, w) ∷ m) h = ground (arith, length-delete_old k v m, length-delete k m)

  pub delete_absent : (k : Text) (m : List (Text × V)) → lookup k m ≡ none → delete k m ≡ m
  unfolding lookup delete
  delete_absent k [] h = refl
  delete_absent k ((j, w) ∷ m) h = ground (arith, delete_absent k m)

  -- Every key stands once.
  abbrev pub HasDistinctKeys : List (Text × V) → Type ℓ
  HasDistinctKeys [] = Unit
  HasDistinctKeys ((k, v) ∷ m) = (lookup k m ≡ none) × HasDistinctKeys m

  pub insert-HasDistinctKeys :
      (k : Text) (v : V) (m : List (Text × V)) → HasDistinctKeys m → HasDistinctKeys (insert k v m)
  unfolding insert
  insert-HasDistinctKeys k v [] h = (unfold lookup in refl, tt)
  insert-HasDistinctKeys k v ((j, w) ∷ m) (fresh, h) = elim (Bool-cases (text_eq j k)) [
    | inl e ↦ rw e (fresh, h)
    | inr e ↦ rw e (
      rw (lookup-insert k j v m) (ground (arith, text_eq_iff k j, text_eq_iff j k)),
      insert-HasDistinctKeys k v m h,
    )
  ]

abbrev pub Counts : Type 0
Counts = List (Text × ℕ)

-- `if _, exists := m[k]; exists { m[k]++ } else if len(m) < limit { m[k] = 1 }`, for a map that is not
-- nil; `record_panics` of Stats/Memory is for the other.
unfoldable pub track : ℕ → Text → Counts → Counts
track limit k m = elim (lookup k m) [
  | some n ↦ insert k (n + 1) m
  | none ↦ if ltb (length m) limit then insert k 1 m else m
]

-- The sum of all counts.
abbrev pub total : Counts → ℕ
total [] = 0
total ((k, n) ∷ m) = n + total m

-- How often a key stands in a list.
abbrev pub occurrences : Text → List Text → ℕ
occurrences k [] = 0
occurrences k (j ∷ l) = (if text_eq j k then 1 else 0) + occurrences k l
