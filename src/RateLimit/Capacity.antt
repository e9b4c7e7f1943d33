-- ===== src/RateLimit/Capacity.antt =====
-- The bound on the tracked addresses, and the separation of one address from the others.
use gospidertrap.Common.{
  ℕ, ◌+◌, ◌≤◌, ◌<◌, ◌≡◌, ◌≢◌, refl, false, Bool-cases, Option-cases, inl, inr, none, some, List, [],
  ◌∷◌, arith, Text, text_eq_iff, leb, length,
}
use gospidertrap.Stats.Table.{
  lookup, lookup-insert, length-insert_old, length-insert_new, HasDistinctKeys,
  insert-HasDistinctKeys,
}
use gospidertrap.RateLimit.{
  max_tracked_ips, RateLibrary, Limiter, new_limiter, take_token, allow_ip, sweep,
  cleanup_old_entries, Event, request, cleanup, apply_event, apply_events,
}

module _ (lib : RateLibrary) where
  open lib use {Bucket, new, allow, has_full_burst}

  -- At most 10000 addresses, each once.
  pub record IsBounded (l : Limiter lib) : Type 0 where
    pub few : length l.limiters ≤ max_tracked_ips
    pub distinct : HasDistinctKeys l.limiters

  pub length-sweep :
      (now burst : ℕ) (m : List (Text × Bucket)) → length (sweep lib now burst m) ≤ length m
  unfolding sweep
  length-sweep now burst [] = omega arith
  length-sweep now burst ((ip, b) ∷ m) = ground (arith, length-sweep now burst m)

  pub lookup-sweep-none :
      (now burst : ℕ) (k : Text) (m : List (Text × Bucket))
      → lookup k m ≡ none
      → lookup k (sweep lib now burst m) ≡ none
  unfolding sweep lookup
  lookup-sweep-none now burst k [] h = refl
  lookup-sweep-none now burst k ((ip, b) ∷ m) h = ground (arith, lookup-sweep-none now burst k m)

  sweep-HasDistinctKeys :
      (now burst : ℕ) (m : List (Text × Bucket))
      → HasDistinctKeys m
      → HasDistinctKeys (sweep lib now burst m)
  unfolding sweep
  sweep-HasDistinctKeys now burst [] h = tt
  sweep-HasDistinctKeys now burst ((ip, b) ∷ m) (fresh, h) =
      elim (Bool-cases (has_full_burst now b burst)) [
        | inl e ↦ rw e (sweep-HasDistinctKeys now burst m h)
        | inr e ↦ rw e (lookup-sweep-none now burst ip m fresh, sweep-HasDistinctKeys now burst m h)
      ]

  -- The three ways in which `Allow` can go.
  pub data Verdict (l : Limiter lib) (ip : Text) (now : ℕ) : Type 0 where
    known :
        (b : Bucket)
        → lookup ip l.limiters ≡ some b
        → allow_ip lib l ip now ≡ take_token lib l ip now b
        → Verdict l ip now
    admitted :
        lookup ip l.limiters ≡ none
        → length l.limiters < max_tracked_ips
        → allow_ip lib l ip now ≡ take_token lib l ip now (new l.rate l.burst)
        → Verdict l ip now
    refused :
        lookup ip l.limiters ≡ none
        → max_tracked_ips ≤ length l.limiters
        → allow_ip lib l ip now ≡ (false, l)
        → Verdict l ip now

  pub verdict : (l : Limiter lib) (ip : Text) (now : ℕ) → Verdict l ip now
  unfolding allow_ip
  verdict l ip now = elim (Option-cases (lookup ip l.limiters)) [
    | inr (b, e) ↦ known b e (rw (e, allow_ip))
    | inl e ↦ elim (Bool-cases (leb max_tracked_ips (length l.limiters))) [
      | inl full ↦ refused e (ground arith) (rw (e, allow_ip, full))
      | inr room ↦ admitted e (ground arith) (rw (e, allow_ip, room))
    ]
  ]

  pub allow_known :
      (l : Limiter lib) (ip : Text) (now : ℕ) (b : Bucket)
      → lookup ip l.limiters ≡ some b
      → allow_ip lib l ip now ≡ take_token lib l ip now b
  unfolding allow_ip
  allow_known l ip now b e = rw (e, allow_ip)

  pub allow_new :
      (l : Limiter lib) (ip : Text) (now : ℕ)
      → lookup ip l.limiters ≡ none
      → length l.limiters < max_tracked_ips
      → allow_ip lib l ip now ≡ take_token lib l ip now (new l.rate l.burst)
  unfolding allow_ip
  allow_new l ip now e room =
      let fits : leb max_tracked_ips (length l.limiters) ≡ false = ground arith in
      rw (e, allow_ip, fits)

  allow_ip-IsBounded :
      (l : Limiter lib) (ip : Text) (now : ℕ) → IsBounded l → IsBounded (allow_ip lib l ip now).1
  allow_ip-IsBounded l ip now h = elim (verdict l ip now) [
    | known b e run ↦ rw run (record {
      few = omega (arith, length-insert_old ip (allow now b).1 b l.limiters e, h.few);
      distinct = insert-HasDistinctKeys ip (allow now b).1 l.limiters h.distinct;
    })
    | admitted e room run ↦ rw run (record {
      few = omega (arith, length-insert_new ip (allow now (new l.rate l.burst)).1 l.limiters e);
      distinct = insert-HasDistinctKeys ip (allow now (new l.rate l.burst)).1 l.limiters h.distinct;
    })
    | refused e full run ↦ rw run h
  ]

  pub length-allow_ip :
      (l : Limiter lib) (ip : Text) (now : ℕ)
      → length (allow_ip lib l ip now).1.limiters ≤ length l.limiters + 1
  length-allow_ip l ip now = elim (verdict l ip now) [
    | known b e run ↦ rw run (omega (arith, length-insert_old ip (allow now b).1 b l.limiters e))
    | admitted e room run ↦
        rw run (omega (arith, length-insert_new ip (allow now (new l.rate l.burst)).1 l.limiters e))
    | refused e full run ↦ rw run (omega arith)
  ]

  pub length-cleanup :
      (l : Limiter lib) (now : ℕ)
      → length (cleanup_old_entries lib l now).limiters ≤ length l.limiters
  unfolding cleanup_old_entries
  length-cleanup l now = length-sweep now l.burst l.limiters

  pub apply_event-IsBounded :
      (l : Limiter lib) (e : Event lib) → IsBounded l → IsBounded (apply_event lib l e)
  unfolding apply_event cleanup_old_entries
  apply_event-IsBounded l (request ip now) h = allow_ip-IsBounded l ip now h
  apply_event-IsBounded l (cleanup now) h = record {
    few = omega (arith, length-sweep now l.burst l.limiters, h.few);
    distinct = sweep-HasDistinctKeys now l.burst l.limiters h.distinct;
  }

  apply_events-IsBounded :
      (l : Limiter lib) (es : List (Event lib)) → IsBounded l → IsBounded (apply_events lib l es)
  apply_events-IsBounded l [] h = h
  apply_events-IsBounded l (e ∷ es) h =
      apply_events-IsBounded (apply_event lib l e) es (apply_event-IsBounded l e h)

  -- Whatever requests arrive and whenever the cleanup runs, a limiter tracks at most 10000
  -- addresses, and each of them in one entry.
  pub new_limiter-IsBounded :
      (rate burst : ℕ) (es : List (Event lib))
      → IsBounded (apply_events lib (new_limiter lib rate burst) es)
  unfolding new_limiter
  new_limiter-IsBounded rate burst es =
      apply_events-IsBounded _ es (record { few = omega arith; distinct = tt })

  -- A request leaves the bucket of every other address alone, and the rate and the burst.
  pub allow_ip_frame :
      (l : Limiter lib) (ip other : Text) (now : ℕ)
      → ip ≢ other
      → let l' : Limiter lib = (allow_ip lib l ip now).1 in
        (lookup other l'.limiters ≡ lookup other l.limiters)
        × (l'.rate ≡ l.rate)
        × (l'.burst ≡ l.burst)
  allow_ip_frame l ip other now ne = elim (verdict l ip now) [
    | known b e run ↦ rw run (
      ground (arith, lookup-insert ip other (allow now b).1 l.limiters, text_eq_iff ip other),
      refl,
      refl,
    )
    | admitted e room run ↦ rw run (
      ground (
        arith,
        lookup-insert ip other (allow now (new l.rate l.burst)).1 l.limiters,
        text_eq_iff ip other,
      ),
      refl,
      refl,
    )
    | refused e full run ↦ rw run (refl, refl, refl)
  ]
