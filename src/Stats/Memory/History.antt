-- ===== src/Stats/Memory/History.antt =====
-- The statistics in memory against the history of requests.
use gospidertrap.Common.{
  ℕ, zero, suc, ◌-◌, ◌≡◌, refl, Bool-cases, inl, inr, List, [], ◌∷◌, ◌++◌, arith, Text, length,
  length-append, length-drop, drop, drop-append_left, map, append_assoc, append-nil, ltb,
}
use mathlib.Core.List.{map-append}
use gospidertrap.Stats.{Time, RequestInfo, Stats, new_stats}
use gospidertrap.Stats.Tracking.{Tracks, Tracks-empty, track-Tracks}
use gospidertrap.Stats.Memory.{
  max_tracked_ips, max_tracked_user_agents, push_recent, record_request, record_all, HasMaps,
  record_request_returned,
}

-- The last `n` requests, in their order.
abbrev pub last_n : ℕ → List RequestInfo → List RequestInfo
last_n n reqs = drop (length reqs - n) reqs

abbrev pub ips : List RequestInfo → List Text
ips = map (λ r. r.ip)

abbrev pub agents : List RequestInfo → List Text
agents = map (λ r. r.user_agent)

-- No map is nil, and what the statistics say of the requests `seen` since the server started.
pub record Reflects (seen : List RequestInfo) (s : Stats) : Type 0 where
  pub maps_made : HasMaps s
  pub every_request : s.total_requests ≡ length seen
  pub by_ip : Tracks max_tracked_ips (ips seen) s.ip_counts
  pub by_agent : Tracks max_tracked_user_agents (agents seen) s.user_agents
  pub recent : s.recent_requests ≡ last_n s.max_recent_requests seen

drop_one_more {ℓ} : {A : Type ℓ} (n : ℕ) (xs : List A) → drop (suc n) xs ≡ drop 1 (drop n xs)
drop_one_more zero xs = refl
drop_one_more (suc n) [] = refl
drop_one_more (suc n) (x ∷ xs) = drop_one_more n xs

push_recent-last_n :
    (max : ℕ) (seen : List RequestInfo) (r : RequestInfo)
    → push_recent max (last_n max seen) r ≡ last_n max (seen ++ r ∷ [])
unfolding push_recent
push_recent-last_n max seen r = elim (Bool-cases (ltb (length seen) max)) [
  | inl room ↦
      let none_before : length seen - max ≡ 0 = ground arith in
      let none_after : length (seen ++ r ∷ []) - max ≡ 0 =
        ground (arith, length-append seen (r ∷ [])) in
      rw (none_before, none_after) (ground (arith, length-append seen (r ∷ [])))
  | inr full ↦
      let more : length (seen ++ r ∷ []) - max ≡ suc (length seen - max) =
        ground (arith, length-append seen (r ∷ [])) in
      rw
        (
          more,
          drop_one_more (length seen - max) (seen ++ r ∷ []),
          drop-append_left (length seen - max) seen (r ∷ []) (ground arith),
        )
        (ground (
          arith,
          length-append (drop (length seen - max) seen) (r ∷ []),
          length-drop (length seen - max) seen,
        ))
]

record_request-Reflects :
    (seen : List RequestInfo) (s : Stats) (r : RequestInfo)
    → Reflects seen s
    → Reflects (seen ++ r ∷ []) (record_request s r)
record_request-Reflects seen s r h = rw ((record_request_returned s r h.maps_made).1) (record {
  maps_made = h.maps_made;
  every_request = omega (arith, h.every_request, length-append seen (r ∷ []));
  by_ip = rw (map-append _ seen (r ∷ [])) (track-Tracks _ (ips seen) s.ip_counts r.ip h.by_ip);
  by_agent =
      rw (map-append _ seen (r ∷ []))
        (track-Tracks _ (agents seen) s.user_agents r.user_agent h.by_agent);
  recent = rw h.recent (push_recent-last_n s.max_recent_requests seen r);
})

pub record_all-Reflects :
    (seen reqs : List RequestInfo) (s : Stats)
    → Reflects seen s
    → Reflects (seen ++ reqs) (record_all s reqs)
record_all-Reflects seen [] s h = rw append-nil h
record_all-Reflects seen (r ∷ rs) s h = rw (← append_assoc seen (r ∷ []) rs) (
    record_all-Reflects (seen ++ r ∷ []) rs (record_request s r)
      (record_request-Reflects seen s r h))

-- After any sequence of requests since the start: the total is their number; the last 100 of them
-- are kept, in their order; there are at most 10000 addresses and 1000 user agents, each once, and
-- the count of each is the number of its requests; one that has requests is missing only if its
-- map is full; and no map counts more requests than there were.
pub history :
    (now : Time) (reqs : List RequestInfo) → Reflects reqs (record_all (new_stats now) reqs)
unfolding new_stats
history now reqs = record_all-Reflects [] reqs (new_stats now) (record {
  maps_made = (refl, refl);
  every_request = refl;
  by_ip = Tracks-empty _;
  by_agent = Tracks-empty _;
  recent = refl;
})
