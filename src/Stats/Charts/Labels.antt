-- ===== src/Stats/Charts/Labels.antt =====
-- The labels of the charts.
use gospidertrap.Common.{
  ℕ, ◌-◌, ◌≤◌, ◌<◌, ◌≡◌, ◌⊎◌, inl, inr, refl, Bool-cases, some, List, [], ◌∷◌, ◌++◌, map, arith,
  Text, codes, ltb, length, length-append, length-take, take,
}
use gospidertrap.Common.Int.{ℤ, pos}
use gospidertrap.Stats.{Stats}
use gospidertrap.Stats.Charts.{
  Entry, display_agent, display_all, top_entries, chart_data_from_memory,
}

-- A user agent of the charts is the whole text if it fits, and else its beginning and "...".
abbrev pub IsShortened : ℕ → Text → Text → Type 0
IsShortened max ua shown =
    ((length ua ≤ max) × (shown ≡ ua))
    ⊎ ((max < length ua) × (shown ≡ take (max - 3) ua ++ codes "...") × (length shown ≡ max))

-- For every user agent and every maximum of 3 or more, the cut is in range; the result is the user
-- agent itself if it is no longer than the maximum, and else its first max - 3 bytes and "...",
-- which is as long as the maximum.
pub display_agent_shortens :
    (max : ℕ) (ua : Text)
    → 3 ≤ max
    → (shown : Text) × (display_agent (pos max) ua ≡ some shown) × IsShortened max ua shown
unfolding display_agent
display_agent_shortens max ua h = elim (Bool-cases (ltb max (length ua))) [
  | inl long ↦ (
    take (max - 3) ua ++ codes "...",
    ground arith,
    inr (
      ground arith,
      refl,
      ground (arith, length-append (take (max - 3) ua) (codes "..."), length-take (max - 3) ua),
    ),
  )
  | inr short ↦ (ua, ground arith, inl (ground arith, refl))
]

-- The labels belong to the entries, one for one and in the same order.
abbrev pub ShowsAll : ℕ → List Entry → List Text → Type 0
ShowsAll max [] [] = Unit
ShowsAll max (e ∷ es) (t ∷ ts) = IsShortened max e.0 t × ShowsAll max es ts
ShowsAll max _ _ = ⊥

pub display_all_shows :
    (max : ℕ) (es : List Entry)
    → 3 ≤ max
    → (labels : List Text) × (display_all (pos max) es ≡ some labels) × ShowsAll max es labels
display_all_shows max [] h = ([], refl, tt)
display_all_shows max (e ∷ es) h =
    let (t, shown, short) = display_agent_shortens max e.0 h in
    let (ts, all_shown, all_short) = display_all_shows max es h in
    (t ∷ ts, ground (arith, shown, all_shown), (short, all_short))

pub ShowsAll-length :
    (max : ℕ) (es : List Entry) (ts : List Text) → ShowsAll max es ts → length ts ≡ length es
ShowsAll-length max [] [] h = refl
ShowsAll-length max [] (t ∷ ts) h = absurd h
ShowsAll-length max (e ∷ es) [] h = absurd h
ShowsAll-length max (e ∷ es) (t ∷ ts) (p, h) = omega (arith, ShowsAll-length max es ts h)

-- For every state, number of items and maximum length of 3 or more, the chart data is returned: the
-- addresses and counts of the top entries of the address map, and the counts of the top entries of
-- the user agent map with their user agents, shortened where they are too long, in the same order.
pub chart_data_total :
    (s : Stats) (n : ℤ) (max : ℕ)
    → 3 ≤ max
    → (labels : List Text) × (chart_data_from_memory s n (pos max)
        ≡ some (record {
          top_ips = record {
            labels = map (λ e. e.0) (top_entries n s.ip_counts);
            counts = map (λ e. e.1) (top_entries n s.ip_counts);
          };
          top_user_agents = record {
            labels = labels;
            counts = map (λ e. e.1) (top_entries n s.user_agents);
          };
        }))
      × ShowsAll max (top_entries n s.user_agents) labels
unfolding chart_data_from_memory
chart_data_total s n max h =
    let (labels, shown, short) = display_all_shows max (top_entries n s.user_agents) h in
    (labels, ground (arith, shown), short)
