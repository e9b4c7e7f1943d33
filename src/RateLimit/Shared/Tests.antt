-- ===== src/RateLimit/Shared/Tests.antt =====
-- Tests of the limiter with pointers.
use gospidertrap.Common.{◌<◌, ◌≡◌, refl, true, false, none, codes, length, arith, List, [], ◌∷◌}
use gospidertrap.Stats.Table.{lookup}
use gospidertrap.RateLimit.{
  max_tracked_ips, Limiter, new_limiter, allow_ip, Event, request, cleanup, apply_events,
}
use gospidertrap.RateLimit.TokenBucket.{
  token_bucket, token_bucket-StartsFull, token_bucket-IsLimiting,
}
use gospidertrap.RateLimit.Shared.Pointers.{view}
use gospidertrap.RateLimit.Shared.View.{shared_implements}
use gospidertrap.RateLimit.Shared.Race.{
  swept_answers, sequential_answers, cleanup_between_lets_two_pass,
}
use gospidertrap.RateLimit.Shared.{Shared, new_shared, allow_shared, apply_all_shared}

abbrev events : List (Event token_bucket)
events = request (codes "10.0.0.1") 5 ∷ request (codes "10.0.0.2") 7 ∷ cleanup 9 ∷ []

abbrev served : Shared token_bucket
served = apply_all_shared token_bucket (new_shared token_bucket 10 20) events

abbrev expected : Limiter token_bucket
expected = apply_events token_bucket (new_limiter token_bucket 10 20) events

shared_implements_example :
    (view token_bucket served ≡ expected)
    × ((allow_shared token_bucket served (codes "10.0.0.2") 11).0
        ≡ (allow_ip token_bucket expected (codes "10.0.0.2") 11).0)
shared_implements_example = shared_implements token_bucket 10 20 events (codes "10.0.0.2") 11

abbrev strict : Shared token_bucket
strict = new_shared token_bucket 1 1

cleanup_between_lets_two_pass_example :
    (swept_answers token_bucket strict (codes "10.0.0.1") 5 ≡ (true, true))
    × (sequential_answers token_bucket strict (codes "10.0.0.1") 5 ≡ (true, false))
cleanup_between_lets_two_pass_example =
    cleanup_between_lets_two_pass token_bucket strict (codes "10.0.0.1") 5 token_bucket-StartsFull
      unknown room one token_bucket-IsLimiting
  where
    unknown : lookup (codes "10.0.0.1") strict.pointers ≡ none
    unknown = unfold new_shared lookup in refl

    room : length strict.pointers < max_tracked_ips
    room = unfold new_shared in omega arith

    one : strict.burst ≡ 1
    one = unfold new_shared in refl
