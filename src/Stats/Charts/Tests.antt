-- ===== src/Stats/Charts/Tests.antt =====
-- The theorems on the chart data at concrete inputs.
use mathlib.Core.List.{Perm}
use gospidertrap.Common.{false, ◌≡◌, refl, some, List, [], ◌∷◌, map, arith, Text, codes}
use gospidertrap.Common.Int.{pos}
use gospidertrap.Stats.{Stats}
use gospidertrap.Stats.Charts.{
  Entry, display_agent, sort_by_count, top_entries, chart_data_from_memory,
}
use gospidertrap.Stats.Charts.Top.{IsDescending, sort_by_count-sorts}
use gospidertrap.Stats.Charts.Labels.{
  IsShortened, ShowsAll, display_agent_shortens, chart_data_total,
}

abbrev sample : List Entry
sample = (codes "a", 2) ∷ (codes "b", 5) ∷ (codes "c", 3) ∷ []

abbrev stats : Stats
stats = record {
  start_time = 0;
  total_requests = 10;
  ip_counts = sample;
  ip_counts_nil = false;
  user_agents_nil = false;
  user_agents = (codes "a long user agent", 10) ∷ [];
  recent_requests = [];
  max_recent_requests = 100;
}

sorted_sample : sort_by_count sample ≡ (codes "b", 5) ∷ (codes "c", 3) ∷ (codes "a", 2) ∷ []
unfolding sort_by_count
sorted_sample = refl

sort_by_count-sorts_example :
    IsDescending (sort_by_count sample) × Perm (sort_by_count sample) sample
sort_by_count-sorts_example = sort_by_count-sorts sample

display_agent_shortens_example :
    (shown : Text) × (display_agent (pos 8) (codes "a long user agent") ≡ some shown)
    × IsShortened 8 (codes "a long user agent") shown
display_agent_shortens_example = display_agent_shortens 8 (codes "a long user agent") (omega arith)

chart_data_total_example :
    (labels : List Text) × (chart_data_from_memory stats (pos 2) (pos 8)
      ≡ some (record {
        top_ips = record {
          labels = map (λ e. e.0) (top_entries (pos 2) stats.ip_counts);
          counts = map (λ e. e.1) (top_entries (pos 2) stats.ip_counts);
        };
        top_user_agents = record {
          labels = labels;
          counts = map (λ e. e.1) (top_entries (pos 2) stats.user_agents);
        };
      }))
    × ShowsAll 8 (top_entries (pos 2) stats.user_agents) labels
chart_data_total_example = chart_data_total stats (pos 2) 8 (omega arith)

shortened : display_agent (pos 8) (codes "a long user agent") ≡ some (codes "a lon...")
unfolding display_agent
shortened = refl
