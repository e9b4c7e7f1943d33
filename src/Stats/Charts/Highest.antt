-- ===== src/Stats/Charts/Highest.antt =====
-- internal/stats/manager.go: what the charts show of a Go map, which has no order.
use mathlib.Core.List.{Perm}
use mathlib.Core.List.Perm
use mathlib.Core.Quot
use mathlib.Core.Quot.{Quot}
use gospidertrap.Common.{
  ℕ, ◌≡◌, refl, ap, sym, ◌∙◌, Bool-cases, inl, inr, List, map, arith, length, take,
  take_of_length-le,
}
use gospidertrap.Common.Int.{pos, lt_int}
use gospidertrap.Common.Descending.{
  IsDescendingBy, descending_unique, sort_by, sort_by-IsDescendingBy, sort_by-perm,
  map-IsDescendingBy, map-take,
}
use gospidertrap.Stats.Table.{Counts}
use gospidertrap.Stats.Charts.{Entry, sort_by_count, top_entries}
use gospidertrap.Stats.Charts.Top.{sort_by_count-sorts, length-sort_by_count}

-- A map of counts, without the order in which a loop visits it.
abbrev pub CountMap : Type 0
CountMap = Quot (Perm {A = Entry})

abbrev pub to_map : Counts → CountMap
to_map = Quot.mk

abbrev falling : List ℕ → List ℕ
falling = sort_by (λ k. k)

pub falling_unique :
    (sorted l : List ℕ) → IsDescendingBy (λ k. k) sorted → Perm sorted l → sorted ≡ falling l
falling_unique sorted l d p =
    descending_unique (λ k. k) sorted (falling l) d (sort_by-IsDescendingBy (λ k. k) l)
      (Perm.trans p (Perm.symm (sort_by-perm (λ k. k) l))) (λ x y mx my e. e)

pub falling-Perm : (l l' : List ℕ) → Perm l l' → falling l ≡ falling l'
falling-Perm l l' p =
    falling_unique (falling l) l' (sort_by-IsDescendingBy (λ k. k) l)
      (Perm.trans (sort_by-perm (λ k. k) l) p)

-- The `n` highest counts of a map, or all of them, in falling order.
unfoldable pub highest : ℕ → CountMap → List ℕ
highest n =
    Quot.lift (hlevel) (λ l. take n (falling (map (λ e. e.1) l)))
      (λ l l' p.
        ap (take n) (falling-Perm (map (λ e. e.1) l) (map (λ e. e.1) l') (Perm.map (λ e. e.1) p)))

-- The counts of every list that holds the entries in falling order.
pub highest_sorted :
    (n : ℕ) (sorted l : Counts)
    → IsDescendingBy (λ e. e.1) sorted
    → Perm sorted l
    → map (λ e. e.1) (take n sorted) ≡ highest n (to_map l)
unfolding highest
highest_sorted n sorted l d p =
    map-take (λ e. e.1) n sorted
    ∙ ap (take n) (
        falling_unique (map (λ e. e.1) sorted) (map (λ e. e.1) l)
          (map-IsDescendingBy (λ e. e.1) sorted d) (Perm.map (λ e. e.1) p))

pub top_entries-take : (n : ℕ) (l : List Entry) → top_entries (pos n) l ≡ take n (sort_by_count l)
unfolding top_entries
top_entries-take n l = elim (Bool-cases (lt_int (pos (length l)) (pos n))) [
  | inl few ↦ rw few (
      take_of_length-le (length l) (sort_by_count l) (omega (arith, length-sort_by_count l))
      ∙ sym (take_of_length-le n (sort_by_count l) (ground (arith, few, length-sort_by_count l))))
  | inr enough ↦ rw enough refl
]

pub top_entries-highest :
    (n : ℕ) (l : List Entry) → map (λ e. e.1) (top_entries (pos n) l) ≡ highest n (to_map l)
top_entries-highest n l =
    let (d, p) = sort_by_count-sorts l in
    rw (top_entries-take n l) (highest_sorted n (sort_by_count l) l d p)
