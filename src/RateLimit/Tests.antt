-- ===== src/RateLimit/Tests.antt =====
-- The theorems on the rate limiter at concrete inputs, with a token bucket.
use gospidertrap.Common.{
  ℕ, ◌+◌, ◌-◌, ◌*◌, ◌≤◌, ◌≡◌, refl, List, [], ◌∷◌, arith, Text, codes, length, text_eq,
}
use gospidertrap.Stats.Table.{lookup, insert}
use gospidertrap.RateLimit.{
  Limiter, new_limiter, allow_ip, cleanup_old_entries, Event, request, cleanup, apply_event,
  apply_events,
}
use gospidertrap.RateLimit.Capacity.{IsBounded, new_limiter-IsBounded}
use gospidertrap.RateLimit.Cleanup.{run_requests}
use gospidertrap.RateLimit.TokenBucket.{
  token_bucket, token_bucket-IsTokenBucket, token_bucket-IsLimiting,
}
use gospidertrap.RateLimit.Window.{passes, window_is_limited}
use gospidertrap.RateLimit.Invisible.{cleanup_is_invisible}

abbrev events : List (Event token_bucket)
events = request (codes "10.0.0.1") 5 ∷ request (codes "10.0.0.2") 7 ∷ cleanup 9 ∷ []

abbrev hasty : List (Event token_bucket)
hasty =
    request (codes "10.0.0.1") 3_000_000_000
    ∷ cleanup 3_000_000_001
    ∷ request (codes "10.0.0.1") 3_000_000_002
    ∷ []

window_is_limited_example :
    passes token_bucket
        (codes "10.0.0.1")
        (apply_events token_bucket (new_limiter token_bucket 10 20) events)
        hasty
      * 1_000_000_000
    ≤ 20 * 1_000_000_000 + 10 * (3_100_000_000 - 3_000_000_000)
window_is_limited_example =
    window_is_limited token_bucket 10 20 3_000_000_000 3_100_000_000 events hasty (codes "10.0.0.1")
      token_bucket-IsTokenBucket token_bucket-IsLimiting (omega arith) (omega arith)

abbrev followers : List (Text × ℕ)
followers = (codes "10.0.0.1", 3_000_000_000) ∷ (codes "10.0.0.3", 3_000_000_001) ∷ []

abbrev served : Limiter token_bucket
served = apply_events token_bucket (new_limiter token_bucket 10 20) events

new_limiter-IsBounded_example : IsBounded token_bucket served
new_limiter-IsBounded_example = new_limiter-IsBounded token_bucket 10 20 events

two_tracked : length served.limiters ≡ 2
unfolding apply_event allow_ip cleanup_old_entries new_limiter lookup insert text_eq
two_tracked = refl

cleanup_is_invisible_example :
    run_requests token_bucket (cleanup_old_entries token_bucket served 2_500_000_000) followers
    ≡ run_requests token_bucket served followers
cleanup_is_invisible_example =
    cleanup_is_invisible token_bucket 10 20 2_500_000_000 events followers
      token_bucket-IsTokenBucket (omega arith) (omega arith) (omega (arith, two_tracked))

-- The cleanup does remove the idle buckets.
none_tracked : (cleanup_old_entries token_bucket served 2_500_000_000).limiters ≡ []
unfolding apply_event allow_ip cleanup_old_entries new_limiter lookup insert text_eq
none_tracked = refl
