-- ===== src/Stats/Charts.antt =====
-- internal/stats/manager.go: the chart data of the admin UI in file mode.
pub mod Top
pub mod Labels
pub mod Highest
mod Tests
use gospidertrap.Common.{
  ℕ, zero, suc, ◌-◌, Bool, Option, none, some, List, [], ◌∷◌, ◌++◌, map, Text, codes, ltb, leb,
  if◌then◌else◌, length, take,
}
use gospidertrap.Common.Int.{ℤ, pos, negsuc, pos_part, lt_int, ◌-ℤ◌}
use gospidertrap.Stats.{Stats}
use gospidertrap.Stats.Table.{Counts}

-- One chart: `labels` and `data` of the same index belong together.
pub record Series : Type 0 where
  pub labels : List Text
  pub counts : List ℕ

pub record ChartData : Type 0 where
  pub top_ips : Series
  pub top_user_agents : Series

abbrev pub Entry : Type 0
Entry = Text × ℕ

-- The inner loop: `x` is `list[i]`, and the second argument is the list behind it. An entry with a
-- higher count changes places with `list[i]`.
unfoldable pub exchange_pass : Entry → List Entry → Entry × List Entry
exchange_pass x [] = (x, [])
exchange_pass x (y ∷ ys) =
    let swapped = exchange_pass y ys in
    let kept = exchange_pass x ys in
    if ltb x.1 y.1 then (swapped.0, x ∷ swapped.1) else (kept.0, y ∷ kept.1)

-- The outer loop, by the rounds left, over the list from index `i` on.
unfoldable pub sort_rounds : ℕ → List Entry → List Entry
sort_rounds zero l = l
sort_rounds (suc n) [] = []
sort_rounds (suc n) (x ∷ xs) = let (first, rest) = exchange_pass x xs in first ∷ sort_rounds n rest

unfoldable pub sort_by_count : List Entry → List Entry
unfolding sort_rounds exchange_pass
sort_by_count l = sort_rounds (length l) l

-- `max := topItemsCount; if len(list) < max { max = len(list) }` and the loop up to `max`.
unfoldable pub top_entries : ℤ → List Entry → List Entry
top_entries n l =
    take (if lt_int (pos (length l)) n then length l else pos_part n) (sort_by_count l)

-- `s[:n]`, which panics out of range.
abbrev pub slice_to : Text → ℤ → Option Text
slice_to s (negsuc n) = none
slice_to s (pos n) = if leb n (length s) then some (take n s) else none

-- A user agent as the charts show it; `none` is a panic.
unfoldable pub display_agent : ℤ → Text → Option Text
unfolding ◌-ℤ◌
display_agent max ua =
    if lt_int max (pos (length ua))
    then (elim (slice_to ua (max -ℤ pos 3)) [ none ↦ none | some cut ↦ some (cut ++ codes "...") ])
    else some ua

abbrev pub display_all : ℤ → List Entry → Option (List Text)
display_all max [] = some []
display_all max (e ∷ es) = elim (display_agent max e.0) [
  | none ↦ none
  | some ua ↦ elim (display_all max es) [ none ↦ none | some uas ↦ some (ua ∷ uas) ]
]

unfoldable pub chart_data_from_memory : Stats → ℤ → ℤ → Option ChartData
chart_data_from_memory s top_items max_length =
    let ips = top_entries top_items s.ip_counts in
    let uas = top_entries top_items s.user_agents in
    elim (display_all max_length uas) [
      | none ↦ none
      | some labels ↦ some (record {
        top_ips = record { labels = map (λ e. e.0) ips; counts = map (λ e. e.1) ips };
        top_user_agents = record { labels = labels; counts = map (λ e. e.1) uas };
      })
    ]
