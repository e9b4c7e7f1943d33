-- ===== src/RateLimit.antt =====
-- internal/ratelimit/limiter.go: a token bucket for each client address. The buckets are those of
-- golang.org/x/time/rate, which is not part of the repository: a parameter.
pub mod Capacity
pub mod Cleanup
pub mod Invisible
pub mod Stop
pub mod Shadow
pub mod Shared
pub mod Window
pub mod TokenBucket
mod Tests
use gospidertrap.Common.{
  ℕ, zero, suc, ◌≡◌, ◌≤◌, Bool, true, false, Option, none, some, List, [], ◌∷◌, Text, leb,
  if◌then◌else◌, length,
}
use gospidertrap.Stats.Table.{lookup, insert, delete}

abbrev pub max_tracked_ips : ℕ
max_tracked_ips = 10000

-- `rate.Limiter`: `new r b`; `allow now l`, the answer and the limiter afterwards; and
-- `has_full_burst now l b`, that is `l.Tokens() >= float64(b)`.
pub record RateLibrary : Type 1 where
  pub Bucket : Type 0
  pub new : ℕ → ℕ → Bucket
  pub allow : ℕ → Bucket → Bool × Bucket
  pub has_full_burst : ℕ → Bucket → ℕ → Bool

-- What the package documents: a bucket holds at most its burst, is full at first and is refilled at
-- its rate. So from the time at which a bucket holds its full burst it answers as a new one does.
module _ (lib : RateLibrary) where
  open lib use {Bucket, new, allow, has_full_burst}

  -- The buckets that a limiter with this rate and burst can hold at a time.
  pub data Made (rate burst : ℕ) : ℕ → Bucket → Type 0 where
    fresh : (now : ℕ) → Made rate burst now (new rate burst)
    used :
        {past : ℕ} {bucket : Bucket} (now : ℕ)
        → past ≤ now
        → Made rate burst past bucket
        → Made rate burst now (allow now bucket).1
    later :
        {past : ℕ} {bucket : Bucket} (now : ℕ)
        → past ≤ now
        → Made rate burst past bucket
        → Made rate burst now bucket

  -- The answers to requests at the given times.
  abbrev pub answers : Bucket → List ℕ → List Bool
  answers bucket [] = []
  answers bucket (t ∷ ts) = (allow t bucket).0 ∷ answers (allow t bucket).1 ts

  -- The times do not fall, from `t` on.
  abbrev pub IsLater : ℕ → List ℕ → Type 0
  IsLater t [] = Unit
  IsLater t (u ∷ us) = (t ≤ u) × IsLater u us

  -- The buckets answer alike from `t` on.
  abbrev pub SameFrom : ℕ → Bucket → Bucket → Type 0
  SameFrom t b c = (ts : List ℕ) → IsLater t ts → answers b ts ≡ answers c ts

  pub record IsTokenBucket : Type 0 where
    pub full_is_new :
        (rate burst now : ℕ) (bucket : Bucket)
        → Made rate burst now bucket
        → has_full_burst now bucket burst ≡ true
        → SameFrom now bucket (new rate burst)

module _ (lib : RateLibrary) where
  open lib use {Bucket, new, allow, has_full_burst}

  -- `Limiter`, without the lock, the ticker and the channel.
  pub record Limiter : Type 0 where
    pub limiters : List (Text × Bucket)
    pub rate : ℕ
    pub burst : ℕ

  unfoldable pub new_limiter : ℕ → ℕ → Limiter
  new_limiter rate burst = record { limiters = []; rate = rate; burst = burst }

  -- `limiter.Allow()` on the bucket that the map holds for the address.
  abbrev pub take_token : Limiter → Text → ℕ → Bucket → Bool × Limiter
  take_token l ip now bucket =
      let (answer, bucket') = allow now bucket in
      (answer, record l { limiters = insert ip bucket' l.limiters })

  -- `Allow`, with nothing between the part that holds the lock and the answer of the bucket.
  unfoldable pub allow_ip : Limiter → Text → ℕ → Bool × Limiter
  allow_ip l ip now = elim (lookup ip l.limiters) [
    | some bucket ↦ take_token l ip now bucket
    | none ↦
        if leb max_tracked_ips (length l.limiters)
        then (false, l)
        else take_token l ip now (new l.rate l.burst)
  ]

  -- One visit of `cleanupOldEntries` after another, over the entries that the loop ranges over.
  unfoldable pub sweep : ℕ → ℕ → List (Text × Bucket) → List (Text × Bucket)
  sweep now burst [] = []
  sweep now burst ((ip, bucket) ∷ m) =
      let rest = sweep now burst m in
      if has_full_burst now bucket burst then rest else (ip, bucket) ∷ rest

  unfoldable pub cleanup_old_entries : Limiter → ℕ → Limiter
  unfolding sweep
  cleanup_old_entries l now = record l { limiters = sweep now l.burst l.limiters }

  -- `Stats()`
  unfoldable pub tracked : Limiter → ℕ
  tracked l = length l.limiters

  -- What happens to a limiter: requests, and runs of the cleanup.
  pub data Event : Type 0 where
    request : Text → ℕ → Event
    cleanup : ℕ → Event

  unfoldable pub apply_event : Limiter → Event → Limiter
  apply_event l (request ip now) = (allow_ip l ip now).1
  apply_event l (cleanup now) = cleanup_old_entries l now

  abbrev pub apply_events : Limiter → List Event → Limiter
  apply_events l [] = l
  apply_events l (e ∷ es) = apply_events (apply_event l e) es
