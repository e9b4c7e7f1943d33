-- ===== src/RateLimit/Window.antt =====
-- How many requests of one address the limiter lets through in a window of time.
use mathlib.Core.Path.{subst}
use gospidertrap.Common.{
  ℕ, ◌+◌, ◌*◌, ◌-◌, ◌≤◌, ◌≡◌, refl, ap, sym, ◌∙◌, Bool, ◌&&◌, Bool-cases, Option-cases, inl, inr,
  List, [], ◌∷◌, arith, Text, text_eq, text_eq_iff, if◌then◌else◌,
}
use gospidertrap.Stats.Table.{lookup}
use gospidertrap.RateLimit.{
  RateLibrary, Made, answers, IsTokenBucket, Limiter, allow_ip, cleanup_old_entries, Event, request,
  cleanup, apply_event, apply_events, new_limiter,
}
use gospidertrap.RateLimit.Cleanup.{AllMade}
use gospidertrap.RateLimit.Invisible.{
  EventsInOrder, allow_ip-AllMade, cleanup-AllMade, apply_events-AllMade, empty_has_none,
}
use gospidertrap.RateLimit.Shadow.{
  Shadow, held, absent, Shadow-later, cleanup-Shadow, other-Shadow, own_step,
}
use gospidertrap.RateLimit.Capacity.{
  known, admitted, refused, verdict, apply_event-IsBounded, new_limiter-IsBounded, IsBounded,
}

-- How many of the answers are positive.
abbrev pub passed : List Bool → ℕ
passed [] = 0
passed (answer ∷ rest) = (if answer then 1 else 0) + passed rest

-- The times do not fall, from `s` to `t`.
abbrev pub Within : ℕ → List ℕ → ℕ → Type 0
Within s [] t = s ≤ t
Within s (u ∷ us) t = (s ≤ u) × Within u us t

Within-earlier : (s now : ℕ) (us : List ℕ) (t : ℕ) → s ≤ now → Within now us t → Within s us t
Within-earlier s now [] t h w = omega arith
Within-earlier s now (u ∷ us) t h (p, w) = (omega arith, w)

module _ (lib : RateLibrary) where
  open lib use {Bucket, new, allow, has_full_burst}

  -- What the package documents of one bucket: between `s` and `t` it lets through its burst at most,
  -- and what its rate per second gives in that time, whatever happened before.
  pub record IsLimiting : Type 0 where
    pub limits :
        (rate burst s t : ℕ) (bucket : Bucket) (us : List ℕ)
        → Made lib rate burst s bucket
        → Within s us t
        → passed (answers lib bucket us) * 1_000_000_000 ≤ burst * 1_000_000_000 + rate * (t - s)

  -- How many requests of the address the limiter lets through.
  abbrev pub passes : Text → Limiter lib → List (Event lib) → ℕ
  passes ip l [] = 0
  passes ip l (request k now ∷ es) =
      (if text_eq k ip && (allow_ip lib l k now).0 then 1 else 0)
      + passes ip (allow_ip lib l k now).1 es
  passes ip l (cleanup now ∷ es) = passes ip (cleanup_old_entries lib l now) es

  -- The answers to the address are those of one bucket that is asked at some of the times.
  passes-Shadow :
      (ip : Text) (es : List (Event lib)) (s t : ℕ) (l : Limiter lib) (g : Bucket)
      → IsTokenBucket lib
      → IsBounded lib l
      → AllMade lib s l
      → EventsInOrder lib s es t
      → Shadow lib s ip l g
      → (us : List ℕ) × Within s us t × (passes ip l es ≡ passed (answers lib g us))
  unfolding cleanup_old_entries apply_event
  passes-Shadow ip [] s t l g law bounded made order sh = ([], order, refl)
  passes-Shadow ip (cleanup now ∷ es) s t l g law bounded made (p, order) sh =
      let made_now : AllMade lib now l = λ k b e. Made.later now p (made k b e) in
      let (us, within, same) =
        passes-Shadow ip es now t (cleanup_old_entries lib l now) g law
          (apply_event-IsBounded lib l (cleanup now) bounded)
          (cleanup-AllMade lib s now l bounded made p) order
          (cleanup-Shadow lib now ip l g law bounded made_now
            (Shadow-later lib s now ip l g p sh)) in
      (us, Within-earlier s now us t p within, same)
  passes-Shadow ip (request k now ∷ es) s t l g law bounded made (p, order) sh =
      let sh' = Shadow-later lib s now ip l g p sh in
      let l' = (allow_ip lib l k now).1 in
      let rest : (g' : Bucket)
          → Shadow lib now ip l' g'
          → (us : List ℕ) × Within now us t × (passes ip l' es ≡ passed (answers lib g' us)) =
        λ g' after.
          passes-Shadow ip es now t l' g' law (apply_event-IsBounded lib l (request k now) bounded)
            (allow_ip-AllMade lib s now l k made p) order after in
      elim (Bool-cases (text_eq k ip)) [
        | inr other ↦
            let (us, within, same) = rest g (other-Shadow lib now k ip l g other sh') in
            (us, Within-earlier s now us t p within, ground (arith, other, same))
        | inl own ↦
            let e : k ≡ ip = (text_eq_iff k ip).0 own in
            elim (own_step lib now k l g (subst (λ i. Shadow lib now i l g) (sym e) sh')) [
              | inl (answer, after) ↦
                  let (us, within, same) =
                    rest (allow now g).1
                      (subst (λ i. Shadow lib now i l' (allow now g).1) e after) in
                  (now ∷ us, (p, within), ground (arith, own, answer, same))
              | inr (answer, after) ↦
                  let (us, within, same) = rest g (subst (λ i. Shadow lib now i l' g) e after) in
                  (us, Within-earlier s now us t p within, ground (arith, own, answer, same))
            ]
      ]

  rates_kept :
      (l : Limiter lib) (es : List (Event lib))
      → ((apply_events lib l es).rate ≡ l.rate) × ((apply_events lib l es).burst ≡ l.burst)
  unfolding apply_event cleanup_old_entries
  rates_kept l [] = (refl, refl)
  rates_kept l (cleanup now ∷ es) = rates_kept (cleanup_old_entries lib l now) es
  rates_kept l (request k now ∷ es) =
      let (r, b) = rates_kept (allow_ip lib l k now).1 es in
      elim (verdict lib l k now) [
        | known c e run ↦ (r ∙ ap (λ o. o.1.rate) run, b ∙ ap (λ o. o.1.burst) run)
        | admitted e room run ↦ (r ∙ ap (λ o. o.1.rate) run, b ∙ ap (λ o. o.1.burst) run)
        | refused e full run ↦ (r ∙ ap (λ o. o.1.rate) run, b ∙ ap (λ o. o.1.burst) run)
      ]

  -- For a library whose buckets keep to their rates, and whose full buckets answer as new ones, and for
  -- calls of `Allow` and runs of the cleanup that come one after another, nothing between the two parts
  -- of an `Allow`: whatever happened before, in every window of time, from `s` to `t`, the limiter lets
  -- through no more requests of one address than its burst and what its rate per second gives in that
  -- time, however many requests come, of whatever addresses, and however often the cleanup runs.
  pub window_is_limited :
      (rate burst s t : ℕ) (past es : List (Event lib)) (ip : Text)
      → IsTokenBucket lib
      → IsLimiting
      → EventsInOrder lib 0 past s
      → EventsInOrder lib s es t
      → passes ip (apply_events lib (new_limiter lib rate burst) past) es * 1_000_000_000
        ≤ burst * 1_000_000_000 + rate * (t - s)
  unfolding new_limiter
  window_is_limited rate burst s t past es ip law limiting before order =
      let l = apply_events lib (new_limiter lib rate burst) past in
      let (same_rate, same_burst) = rates_kept (new_limiter lib rate burst) past in
      let bounded = new_limiter-IsBounded lib rate burst past in
      let made : AllMade lib s l =
        apply_events-AllMade lib 0 s (new_limiter lib rate burst) past
          (new_limiter-IsBounded lib rate burst [])
          (λ k b e. absurd (empty_has_none lib rate burst k b e)) before in
      elim (Option-cases (lookup ip l.limiters)) [
        | inr (b, e) ↦
            let (us, within, same) =
              passes-Shadow ip es s t l b law bounded made order (held b e (λ us later. refl)) in
            carried (t - s) same same_rate same_burst
              (limiting.limits l.rate l.burst s t b us (made ip b e) within)
        | inl e ↦
            let g = new l.rate l.burst in
            let (us, within, same) =
              passes-Shadow ip es s t l g law bounded made order (absent e (λ us later. refl)) in
            carried (t - s) same same_rate same_burst
              (limiting.limits l.rate l.burst s t g us (Made.fresh s) within)
      ]
    where
      carried :
          {n m r b : ℕ} (d : ℕ)
          → n ≡ m
          → r ≡ rate
          → b ≡ burst
          → m * 1_000_000_000 ≤ b * 1_000_000_000 + r * d
          → n * 1_000_000_000 ≤ burst * 1_000_000_000 + rate * d
      carried d same same_rate same_burst h = rw (same, ← same_rate, ← same_burst) h
