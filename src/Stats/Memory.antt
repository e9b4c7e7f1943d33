-- ===== src/Stats/Memory.antt =====
-- internal/stats/manager.go without a database: `RecordRequest` and `GetRecentRequests` over the
-- statistics in memory.
pub mod History
pub mod Recent
mod Tests
use mathlib.Core.Option
use gospidertrap.Common.{
  ℕ, zero, suc, ◌+◌, List, [], ◌∷◌, ◌++◌, Text, ltb, if◌then◌else◌, ◌&&◌, length, drop, get_elem?,
  Option, none, some, ◌-◌, ◌==◌, ◌≡◌, ◌∙◌, refl, Bool, false, Bool-cases, inl, inr, ◌||◌,
}
use gospidertrap.Common.Int.{ℤ, pos, negsuc}
use gospidertrap.Stats.{RequestInfo, Stats}
use gospidertrap.Stats.Table.{track}

abbrev pub max_tracked_ips : ℕ
max_tracked_ips = 10000

abbrev pub max_tracked_user_agents : ℕ
max_tracked_user_agents = 1000

-- Append, and drop the oldest request past the limit.
unfoldable pub push_recent : ℕ → List RequestInfo → RequestInfo → List RequestInfo
push_recent max recent req =
    let longer = recent ++ req ∷ [] in if ltb max (length longer) then drop 1 longer else longer

-- Whether `RecordRequest` panics in file mode: a nil map holds no key and has room, and a write to it
-- panics.
unfoldable pub record_panics : Stats → Bool
record_panics s = s.ip_counts_nil || s.user_agents_nil

-- The parts of `RecordRequest` in file mode.
abbrev pub count_request : Stats → Stats
count_request s = record s { total_requests = s.total_requests + 1 }

abbrev pub track_ip : RequestInfo → Stats → Stats
track_ip req s = record s { ip_counts = track max_tracked_ips req.ip s.ip_counts }

abbrev pub track_user_agent : RequestInfo → Stats → Stats
track_user_agent req s = record s {
  user_agents = track max_tracked_user_agents req.user_agent s.user_agents;
}

abbrev pub keep_recent : RequestInfo → Stats → Stats
keep_recent req s = record s {
  recent_requests = push_recent s.max_recent_requests s.recent_requests req;
}

-- `RecordRequest` in file mode, from the request's description on: the statistics when it returns, or
-- panics at the write to a nil map.
unfoldable pub record_request : Stats → RequestInfo → Stats
record_request s req =
    let counted = count_request s in
    if s.ip_counts_nil
    then counted
    else let tracked = track_ip req counted in
      if s.user_agents_nil then tracked else keep_recent req (track_user_agent req tracked)

-- No map is nil.
abbrev pub HasMaps : Stats → Type 0
HasMaps s = (s.ip_counts_nil ≡ false) × (s.user_agents_nil ≡ false)

pub record_request_returned :
    (s : Stats) (req : RequestInfo)
    → HasMaps s
    → (record_panics s ≡ false)
      × (record_request s req
          ≡ keep_recent req (track_user_agent req (track_ip req (count_request s))))
unfolding record_request record_panics
record_request_returned s req (some_ips, some_agents) =
    (rw (some_ips, some_agents) refl, rw (some_ips, some_agents) refl)

-- Recording does not change which maps are nil, nor how many requests are kept.
pub record_request-same :
    (s : Stats) (req : RequestInfo)
    → ((record_request s req).max_recent_requests ≡ s.max_recent_requests)
      × ((record_request s req).ip_counts_nil ≡ s.ip_counts_nil)
      × ((record_request s req).user_agents_nil ≡ s.user_agents_nil)
unfolding record_request
record_request-same s req = elim (Bool-cases s.ip_counts_nil) [
  | inl e ↦ rw e (refl, refl, refl)
  | inr e ↦ elim (Bool-cases s.user_agents_nil) [
    | inl f ↦ rw (e, f) (refl, refl, refl)
    | inr f ↦ rw (e, f) (refl, refl, refl)
  ]
]

pub record_panics-record_request :
    (s : Stats) (req : RequestInfo) → record_panics (record_request s req) ≡ record_panics s
unfolding record_panics
record_panics-record_request s req =
    let (max, ips, agents) = record_request-same s req in rw (ips, agents) refl

abbrev pub record_all : Stats → List RequestInfo → Stats
record_all s [] = s
record_all s (r ∷ rs) = record_all (record_request s r) rs

pub record_all-max :
    (reqs : List RequestInfo) (s : Stats)
    → (record_all s reqs).max_recent_requests ≡ s.max_recent_requests
record_all-max [] s = refl
record_all-max (r ∷ rs) s = record_all-max rs (record_request s r) ∙ (record_request-same s r).0

-- `limit > 0 && limit < total` decides how many requests are returned.
unfoldable pub recent_count : ℤ → ℕ → ℕ
recent_count (negsuc n) total = total
recent_count (pos limit) total = if ltb 0 limit && ltb limit total then limit else total

-- The loop that fills the result: `result[i] = RecentRequests[total-1-i]`, by the rounds left.
-- `none` is an index out of range.
unfoldable pub fill_recent : List RequestInfo → ℕ → ℕ → Option (List RequestInfo)
fill_recent reqs zero i = some []
fill_recent reqs (suc n) i = elim (get_elem? reqs (length reqs - 1 - i)) [
  | none ↦ none
  | some r ↦ Option.map (λ rs. r ∷ rs) (fill_recent reqs n (i + 1))
]

unfoldable pub get_recent_requests : Stats → ℤ → Option (List RequestInfo)
unfolding fill_recent recent_count
get_recent_requests s limit =
    let total = length s.recent_requests in
    if total == 0 then some [] else fill_recent s.recent_requests (recent_count limit total) 0
