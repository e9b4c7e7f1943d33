-- ===== src/RateLimit/Shared.antt =====
-- internal/ratelimit/limiter.go: `Allow` as it locks. The map holds pointers to buckets: the lock is
-- held while the pointer is looked up or made, and released before the bucket is asked.
pub mod Pointers
pub mod View
pub mod Race
mod Tests
use gospidertrap.Common.{
  ℕ, ◌+◌, ◌==◌, Bool, true, false, Option, none, some, List, [], ◌∷◌, Text, leb, if◌then◌else◌,
  length,
}
use gospidertrap.Stats.Table.{lookup, insert}
use gospidertrap.RateLimit.{max_tracked_ips, RateLibrary, Event, request, cleanup}

-- `store p` with another value at `p`.
unfoldable pub update : {B : Type 0} → ℕ → B → (ℕ → B) → ℕ → B
update p b store q = if p == q then b else store q

module _ (lib : RateLibrary) where
  open lib use {Bucket, new, allow, has_full_burst}

  -- `Limiter` with its buckets behind pointers; `next` is the first pointer that is not in use.
  pub record Shared : Type 0 where
    pub pointers : List (Text × ℕ)
    pub store : ℕ → Bucket
    pub next : ℕ
    pub rate : ℕ
    pub burst : ℕ

  unfoldable pub new_shared : ℕ → ℕ → Shared
  new_shared rate burst = record {
    pointers = [];
    store = λ p. new rate burst;
    next = 0;
    rate = rate;
    burst = burst;
  }

  -- `Allow` up to `Unlock`: the bucket, or `none` if the limiter is full.
  unfoldable pub find : Shared → Text → Option ℕ × Shared
  find l ip = elim (lookup ip l.pointers) [
    | some p ↦ (some p, l)
    | none ↦ if leb max_tracked_ips (length l.pointers) then (none, l) else (
      some l.next,
      record l {
        pointers = insert ip l.next l.pointers;
        store = update l.next (new l.rate l.burst) l.store;
        next = l.next + 1;
      },
    )
  ]

  -- `limiter.Allow()`, on the bucket that was found.
  unfoldable pub ask : Shared → ℕ → ℕ → Bool × Shared
  ask l p now =
      let (answer, b) = allow now (l.store p) in (answer, record l { store = update p b l.store })

  -- `Allow` with nothing between its two parts.
  unfoldable pub allow_shared : Shared → Text → ℕ → Bool × Shared
  allow_shared l ip now =
      let (found, l') = find l ip in elim found [ none ↦ (false, l') | some p ↦ ask l' p now ]

  unfoldable pub sweep_pointers : ℕ → ℕ → (ℕ → Bucket) → List (Text × ℕ) → List (Text × ℕ)
  sweep_pointers now burst store [] = []
  sweep_pointers now burst store ((ip, p) ∷ m) =
      let rest = sweep_pointers now burst store m in
      if has_full_burst now (store p) burst then rest else (ip, p) ∷ rest

  -- `cleanupOldEntries`
  unfoldable pub cleanup_shared : Shared → ℕ → Shared
  cleanup_shared l now = record l { pointers = sweep_pointers now l.burst l.store l.pointers }

  unfoldable pub apply_shared : Shared → Event lib → Shared
  apply_shared l (request ip now) = (allow_shared l ip now).1
  apply_shared l (cleanup now) = cleanup_shared l now

  abbrev pub apply_all_shared : Shared → List (Event lib) → Shared
  apply_all_shared l [] = l
  apply_all_shared l (e ∷ es) = apply_all_shared (apply_shared l e) es
