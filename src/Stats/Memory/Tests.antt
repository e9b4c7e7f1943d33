-- ===== src/Stats/Memory/Tests.antt =====
-- The theorems on the statistics in memory at concrete inputs.
use gospidertrap.Common.{◌≡◌, false, refl, some, List, [], ◌∷◌, codes}
use gospidertrap.Common.Int.{pos}
use gospidertrap.Stats.{RequestInfo, Stats, new_stats}
use gospidertrap.Stats.Memory.{record_all, get_recent_requests}
use gospidertrap.Stats.Memory.History.{Reflects, history}

abbrev first_request : RequestInfo
first_request = record {
  ip = codes "192.0.2.1";
  user_agent = codes "Unknown";
  path = codes "/";
  timestamp = 10;
}

abbrev second_request : RequestInfo
second_request = record first_request { path = codes "/a"; timestamp = 11 }

abbrev both : List RequestInfo
both = first_request ∷ second_request ∷ []

history_example : Reflects both (record_all (new_stats 5) both)
history_example = history 5 both

abbrev stored : Stats
stored = record {
  start_time = 5;
  total_requests = 2;
  ip_counts = (codes "192.0.2.1", 2) ∷ [];
  ip_counts_nil = false;
  user_agents_nil = false;
  user_agents = (codes "Unknown", 2) ∷ [];
  recent_requests = both;
  max_recent_requests = 100;
}

most_recent : get_recent_requests stored (pos 1) ≡ some (second_request ∷ [])
unfolding get_recent_requests
most_recent = refl
