-- ===== src/Stats/Charts/Top.antt =====
-- The charted entries are the ones with the highest counts, in falling order.
use Prim.Native.Nat.{min}
use mathlib.Core.List.{Perm}
use mathlib.Core.List.Perm
use gospidertrap.Common.{
  ℕ, zero, suc, ◌≤◌, ◌≡◌, refl, Bool-cases, inl, inr, List, [], ◌∷◌, ◌++◌, arith, ltb, length, take,
  drop, take-append-drop, length-take, if◌then◌else◌, All, All-take, All-drop,
}
use gospidertrap.Common.Int.{ℤ, pos, pos_part, lt_int, parts_zero}
use gospidertrap.Stats.Charts.{Entry, exchange_pass, sort_rounds, sort_by_count, top_entries}

-- No entry of the list has a higher count than `x`.
abbrev pub Leads : Entry → List Entry → Type 0
Leads x = All (λ y. y.1 ≤ x.1)

abbrev pub IsDescending : List Entry → Type 0
IsDescending [] = Unit
IsDescending (x ∷ xs) = Leads x xs × IsDescending xs

exchange_pass-perm :
    (x : Entry) (ys : List Entry) → Perm ((exchange_pass x ys).0 ∷ (exchange_pass x ys).1) (x ∷ ys)
unfolding exchange_pass
exchange_pass-perm x [] = Perm.refl _
exchange_pass-perm x (y ∷ ys) = elim (Bool-cases (ltb x.1 y.1)) [
  | inl less ↦ rw less (Perm.trans (Perm.swap _ _ _) (Perm.cons x (exchange_pass-perm y ys)))
  | inr not_less ↦ rw not_less (
      Perm.trans (Perm.swap _ _ _)
        (Perm.trans (Perm.cons y (exchange_pass-perm x ys)) (Perm.swap _ _ _)))
]

exchange_pass-Leads :
    (x : Entry) (ys : List Entry)
    → (x.1 ≤ (exchange_pass x ys).0.1) × Leads (exchange_pass x ys).0 (exchange_pass x ys).1
unfolding exchange_pass
exchange_pass-Leads x [] = (omega arith, tt)
exchange_pass-Leads x (y ∷ ys) = ground (arith, exchange_pass-Leads x ys, exchange_pass-Leads y ys)

length-exchange_pass : (x : Entry) (ys : List Entry) → length (exchange_pass x ys).1 ≡ length ys
unfolding exchange_pass
length-exchange_pass x [] = refl
length-exchange_pass x (y ∷ ys) =
    ground (arith, length-exchange_pass x ys, length-exchange_pass y ys)

module _ (P : Entry → Type 0) where
  exchange_pass-All :
      (x : Entry) (ys : List Entry)
      → P x
      → All P ys
      → P (exchange_pass x ys).0 × All P (exchange_pass x ys).1
  unfolding exchange_pass
  exchange_pass-All x [] p h = (p, tt)
  exchange_pass-All x (y ∷ ys) p (q, h) = elim (Bool-cases (ltb x.1 y.1)) [
    | inl e ↦ let (a, b) = exchange_pass-All y ys q h in rw e (a, (p, b))
    | inr e ↦ let (a, b) = exchange_pass-All x ys p h in rw e (a, (q, b))
  ]

  sort_rounds-All : (n : ℕ) (l : List Entry) → All P l → All P (sort_rounds n l)
  unfolding sort_rounds
  sort_rounds-All zero l h = h
  sort_rounds-All (suc n) [] h = tt
  sort_rounds-All (suc n) (x ∷ xs) (p, h) =
      let (a, b) = exchange_pass-All x xs p h in (a, sort_rounds-All n (exchange_pass x xs).1 b)

sort_rounds-perm : (n : ℕ) (l : List Entry) → Perm (sort_rounds n l) l
unfolding sort_rounds
sort_rounds-perm zero l = Perm.refl l
sort_rounds-perm (suc n) [] = Perm.refl []
sort_rounds-perm (suc n) (x ∷ xs) =
    Perm.trans (Perm.cons _ (sort_rounds-perm n (exchange_pass x xs).1)) (exchange_pass-perm x xs)

sort_rounds-IsDescending : (n : ℕ) (l : List Entry) → length l ≤ n → IsDescending (sort_rounds n l)
unfolding sort_rounds
sort_rounds-IsDescending zero [] h = tt
sort_rounds-IsDescending zero (x ∷ xs) h = absurd (omega arith)
sort_rounds-IsDescending (suc n) [] h = tt
sort_rounds-IsDescending (suc n) (x ∷ xs) h = (
  sort_rounds-All _ n (exchange_pass x xs).1 (exchange_pass-Leads x xs).1,
  sort_rounds-IsDescending n (exchange_pass x xs).1 (omega (arith, length-exchange_pass x xs)),
)

length-sort_rounds : (n : ℕ) (l : List Entry) → length (sort_rounds n l) ≡ length l
unfolding sort_rounds
length-sort_rounds zero l = refl
length-sort_rounds (suc n) [] = refl
length-sort_rounds (suc n) (x ∷ xs) =
    omega (arith, length-sort_rounds n (exchange_pass x xs).1, length-exchange_pass x xs)

pub length-sort_by_count : (l : List Entry) → length (sort_by_count l) ≡ length l
unfolding sort_by_count
length-sort_by_count l = length-sort_rounds (length l) l

-- The sort of the charts gives a permutation of the entries, in falling order of their counts.
pub sort_by_count-sorts :
    (l : List Entry) → IsDescending (sort_by_count l) × Perm (sort_by_count l) l
unfolding sort_by_count
sort_by_count-sorts l =
    (sort_rounds-IsDescending (length l) l (omega arith), sort_rounds-perm (length l) l)

-- Every entry of `xs` has at least the count of every entry of `ys`.
abbrev pub Dominates : List Entry → List Entry → Type 0
Dominates xs ys = All (λ x. Leads x ys) xs

split_IsDescending :
    (n : ℕ) (l : List Entry)
    → IsDescending l
    → IsDescending (take n l) × Dominates (take n l) (drop n l)
split_IsDescending zero l d = (tt, tt)
split_IsDescending (suc n) [] d = (tt, tt)
split_IsDescending (suc n) (x ∷ xs) (lead, d) =
    let (sorted, dominates) = split_IsDescending n xs d in
    ((All-take _ n xs lead, sorted), (All-drop _ n xs lead, dominates))

-- The charts show the entries with the highest counts: for every number of items, positive or not,
-- the entries of the map are the charted ones, in falling order, and others whose counts are no
-- higher; and there are as many charted entries as asked for, or all if there are fewer.
pub top_entries_are_highest :
    (n : ℤ) (l : List Entry)
    → (others : List Entry) × Perm (top_entries n l ++ others) l
      × IsDescending (top_entries n l)
      × Dominates (top_entries n l) others
      × (length (top_entries n l) ≡ min (pos_part n) (length l))
unfolding top_entries sort_by_count
top_entries_are_highest n l =
    let rounds = if lt_int (pos (length l)) n then length l else pos_part n in
    let sorted = sort_rounds (length l) l in
    let (falling, dominates) =
      split_IsDescending rounds sorted (sort_rounds-IsDescending (length l) l (omega arith)) in
    (
      drop rounds sorted,
      rw (take-append-drop rounds sorted) (sort_rounds-perm (length l) l),
      falling,
      dominates,
      ground (arith, length-take rounds sorted, length-sort_rounds (length l) l, parts_zero n),
    )
