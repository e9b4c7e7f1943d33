-- ===== src/RateLimit/Invisible.antt =====
-- The cleanup after any history of a limiter.
use mathlib.Core.Path.{subst}
use gospidertrap.Common.{
  ℕ, ◌+◌, ◌≤◌, ◌≡◌, ◌≢◌, refl, sym, ◌∙◌, Bool-cases, Option-cases, inl, inr, some, List, [], ◌∷◌,
  Text, text_eq, length,
}
use gospidertrap.Stats.Table.{lookup, insert, lookup-insert}
use gospidertrap.RateLimit.{
  max_tracked_ips, RateLibrary, Made, IsTokenBucket, Limiter, allow_ip, cleanup_old_entries, Event,
  request, cleanup, apply_event, apply_events, new_limiter,
}
use gospidertrap.RateLimit.Cleanup.{
  AllMade, InOrder, run_requests, lookup-sweep, cleanup_changes_no_answer,
}
use gospidertrap.RateLimit.Capacity.{
  known, admitted, refused, verdict, apply_event-IsBounded, new_limiter-IsBounded,
  lookup-sweep-none, IsBounded,
}

module _ (lib : RateLibrary) where
  open lib use {Bucket, new, allow, has_full_burst}

  -- The events happen at times that do not fall, from `s` to `t`.
  abbrev pub EventsInOrder : ℕ → List (Event lib) → ℕ → Type 0
  EventsInOrder s [] t = s ≤ t
  EventsInOrder s (request ip now ∷ es) t = (s ≤ now) × EventsInOrder now es t
  EventsInOrder s (cleanup now ∷ es) t = (s ≤ now) × EventsInOrder now es t

  insert-AllMade :
      (s now : ℕ) (l : Limiter lib) (ip : Text) (b : Bucket)
      → AllMade lib s l
      → s ≤ now
      → Made lib l.rate l.burst now b
      → AllMade lib now (record l { limiters = insert ip b l.limiters })
  insert-AllMade s now l ip b made order m k c found = elim (Bool-cases (text_eq ip k)) [
    | inl here ↦
        let same : some b ≡ some c =
          sym (rw (lookup-insert ip k b l.limiters, here) refl) ∙ found in
        let b_is_c : b ≡ c = cc in subst (Made lib l.rate l.burst now) b_is_c m
    | inr elsewhere ↦
        let e : lookup k l.limiters ≡ some c =
          sym (rw (lookup-insert ip k b l.limiters, elsewhere) refl) ∙ found in
        Made.later now order (made k c e)
  ]

  pub allow_ip-AllMade :
      (s now : ℕ) (l : Limiter lib) (ip : Text)
      → AllMade lib s l
      → s ≤ now
      → AllMade lib now (allow_ip lib l ip now).1
  allow_ip-AllMade s now l ip made order = elim (verdict lib l ip now) [
    | known b e run ↦
        rw run
          (insert-AllMade s now l ip (allow now b).1 made order (Made.used now order (made ip b e)))
    | admitted e room run ↦ rw run (
        insert-AllMade s now l ip (allow now (new l.rate l.burst)).1 made order
          (Made.used now order (Made.fresh s)))
    | refused e full run ↦ rw run (λ k c found. Made.later now order (made k c found))
  ]

  pub cleanup-AllMade :
      (s now : ℕ) (l : Limiter lib)
      → IsBounded lib l
      → AllMade lib s l
      → s ≤ now
      → AllMade lib now (cleanup_old_entries lib l now)
  unfolding cleanup_old_entries
  cleanup-AllMade s now l bounded made order k c found = elim (Option-cases (lookup k l.limiters)) [
    | inl absent ↦ cc (lookup-sweep-none lib now l.burst k l.limiters absent)
    | inr (b, there) ↦ elim (lookup-sweep lib now l.burst k l.limiters b bounded.distinct there) [
      | inl (full, gone) ↦ cc
      | inr kept ↦
          let b_is_c : b ≡ c = cc in
          subst (Made lib l.rate l.burst now) b_is_c (Made.later now order (made k b there))
    ]
  ]

  pub apply_events-AllMade :
      (s t : ℕ) (l : Limiter lib) (es : List (Event lib))
      → IsBounded lib l
      → AllMade lib s l
      → EventsInOrder s es t
      → AllMade lib t (apply_events lib l es)
  unfolding apply_event
  apply_events-AllMade s t l [] bounded made order = λ k b e. Made.later t order (made k b e)
  apply_events-AllMade s t l (request ip now ∷ es) bounded made (p, order) =
      apply_events-AllMade now t (allow_ip lib l ip now).1 es
        (apply_event-IsBounded lib l (request ip now) bounded) (allow_ip-AllMade s now l ip made p)
        order
  apply_events-AllMade s t l (cleanup now ∷ es) bounded made (p, order) =
      apply_events-AllMade now t (cleanup_old_entries lib l now) es
        (apply_event-IsBounded lib l (cleanup now) bounded) (cleanup-AllMade s now l bounded made p)
        order

  pub empty_has_none :
      (rate burst : ℕ) (k : Text) (b : Bucket)
      → lookup k (new_limiter lib rate burst).limiters ≢ some b
  unfolding new_limiter lookup
  empty_has_none rate burst k b = cc

  -- For a library whose full buckets answer as new ones: after any history of requests and
  -- cleanups at times that do not fall, one more run of the cleanup changes no answer to the
  -- requests that follow in the order of time, if the addresses tracked before it and those
  -- requests are no more than 10000 together.
  pub cleanup_is_invisible :
      (rate burst t : ℕ) (es : List (Event lib)) (rs : List (Text × ℕ))
      → IsTokenBucket lib
      → EventsInOrder 0 es t
      → InOrder lib t rs
      → length (apply_events lib (new_limiter lib rate burst) es).limiters + length rs
        ≤ max_tracked_ips
      → run_requests lib
          (cleanup_old_entries lib (apply_events lib (new_limiter lib rate burst) es) t)
          rs
        ≡ run_requests lib (apply_events lib (new_limiter lib rate burst) es) rs
  cleanup_is_invisible rate burst t es rs law past order room =
      cleanup_changes_no_answer lib t (apply_events lib (new_limiter lib rate burst) es) rs law
        (new_limiter-IsBounded lib rate burst es)
        (apply_events-AllMade 0 t (new_limiter lib rate burst) es
          (new_limiter-IsBounded lib rate burst []) nothing_made past)
        order room
    where
      nothing_made : AllMade lib 0 (new_limiter lib rate burst)
      nothing_made k b e = absurd (empty_has_none rate burst k b e)
