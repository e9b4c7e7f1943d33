-- ===== src/RateLimit/Cleanup.antt =====
-- `cleanupOldEntries` changes no answer: a limiter that was swept answers as the one before.
use mathlib.Core.Path.{ap₂}
use gospidertrap.Common.{
  ℕ, ◌+◌, ◌≤◌, ◌<◌, ◌≡◌, ◌⊎◌, refl, ap, sym, ◌∙◌, Bool, true, Bool-cases, Option-cases, inl, inr,
  none, some, List, [], ◌∷◌, arith, Text, text_eq, text_eq_iff, length,
}
use gospidertrap.Stats.Table.{lookup, lookup-insert, HasDistinctKeys}
use gospidertrap.RateLimit.{
  max_tracked_ips, RateLibrary, Made, SameFrom, IsTokenBucket, Limiter, take_token, allow_ip, sweep,
  cleanup_old_entries,
}
use gospidertrap.RateLimit.Capacity.{
  allow_known, allow_new, length-allow_ip, length-cleanup, lookup-sweep-none, IsBounded,
}

module _ (lib : RateLibrary) where
  open lib use {Bucket, new, allow, has_full_burst}

  -- The answers of a limiter to requests, each an address and a time.
  abbrev pub run_requests : Limiter lib → List (Text × ℕ) → List Bool
  run_requests l [] = []
  run_requests l ((ip, now) ∷ rs) =
      (allow_ip lib l ip now).0 ∷ run_requests (allow_ip lib l ip now).1 rs

  -- The times of the requests do not fall, from `t` on.
  abbrev pub InOrder : ℕ → List (Text × ℕ) → Type 0
  InOrder t [] = Unit
  InOrder t ((ip, now) ∷ rs) = (t ≤ now) × InOrder now rs

  -- Every bucket of the limiter was made by its rate and burst, and was used at `t` at the latest.
  abbrev pub AllMade : ℕ → Limiter lib → Type 0
  AllMade t l = (k : Text) (b : Bucket) → lookup k l.limiters ≡ some b → Made lib l.rate l.burst t b

  -- The entries of one address in two limiters, of which the second may have been swept.
  data SameEntry (t : ℕ) (l l' : Limiter lib) (k : Text) : Type 0 where
    both :
        (b c : Bucket)
        → lookup k l.limiters ≡ some b
        → lookup k l'.limiters ≡ some c
        → SameFrom lib t b c
        → SameEntry t l l' k
    swept :
        (b : Bucket)
        → lookup k l.limiters ≡ some b
        → lookup k l'.limiters ≡ none
        → SameFrom lib t b (new l.rate l.burst)
        → SameEntry t l l' k
    neither : lookup k l.limiters ≡ none → lookup k l'.limiters ≡ none → SameEntry t l l' k

  record Similar (t : ℕ) (l l' : Limiter lib) : Type 0 where
    entry : (k : Text) → SameEntry t l l' k
    same_rate : l'.rate ≡ l.rate
    same_burst : l'.burst ≡ l.burst

  pub lookup-sweep :
      (now burst : ℕ) (k : Text) (m : List (Text × Bucket)) (b : Bucket)
      → HasDistinctKeys m
      → lookup k m ≡ some b
      → ((has_full_burst now b burst ≡ true) × (lookup k (sweep lib now burst m) ≡ none))
        ⊎ (lookup k (sweep lib now burst m) ≡ some b)
  unfolding lookup sweep
  lookup-sweep now burst k [] b d h = cc
  lookup-sweep now burst k ((j, c) ∷ m) b (fresh, d) h = ground (
    arith,
    lookup-sweep now burst k m b d,
    text_eq_iff j k,
    lookup-sweep-none lib now burst j m fresh,
  )

  cleanup-Similar :
      (t : ℕ) (l : Limiter lib)
      → IsTokenBucket lib
      → IsBounded lib l
      → AllMade t l
      → Similar t l (cleanup_old_entries lib l t)
  unfolding cleanup_old_entries
  cleanup-Similar t l law bounded made = record {
    entry = λ k. elim (Option-cases (lookup k l.limiters)) [
      | inl absent ↦ neither absent (lookup-sweep-none lib t l.burst k l.limiters absent)
      | inr (b, there) ↦ elim (lookup-sweep t l.burst k l.limiters b bounded.distinct there) [
        | inl (full, gone) ↦
            swept b there gone (law.full_is_new l.rate l.burst t b (made k b there) full)
        | inr kept ↦ both b b there kept (λ ts h. refl)
      ]
    ];
    same_rate = refl;
    same_burst = refl;
  }

  pub SameFrom-head :
      (t now : ℕ) (b c : Bucket) → t ≤ now → SameFrom lib t b c → (allow now b).0 ≡ (allow now c).0
  SameFrom-head t now b c h same = ground (arith, same (now ∷ []) (h, tt))

  pub SameFrom-tail :
      (t now : ℕ) (b c : Bucket)
      → t ≤ now
      → SameFrom lib t b c
      → SameFrom lib now (allow now b).1 (allow now c).1
  SameFrom-tail t now b c h same ts later = ground (arith, same (now ∷ ts) (h, later))

  pub SameFrom-later :
      (t now : ℕ) (b c : Bucket) → t ≤ now → SameFrom lib t b c → SameFrom lib now b c
  SameFrom-later t now b c h same [] later = refl
  SameFrom-later t now b c h same (u ∷ us) (p, later) = same (u ∷ us) (omega arith, later)

  module _ (t now : ℕ) (l l' : Limiter lib) (ip : Text) (order : t ≤ now)
      (sim : Similar t l l') where
    -- The entries after both limiters have answered from a bucket for the address.
    other_entry :
        (b c : Bucket) (k : Text)
        → SameFrom lib t b c
        → SameEntry now (take_token lib l ip now b).1 (take_token lib l' ip now c).1 k
    other_entry b c k same = elim (Bool-cases (text_eq ip k)) [
      | inl here ↦
          both (allow now b).1 (allow now c).1
            (rw (lookup-insert ip k (allow now b).1 l.limiters, here) refl)
            (rw (lookup-insert ip k (allow now c).1 l'.limiters, here) refl)
            (SameFrom-tail t now b c order same)
      | inr elsewhere ↦ elim (sim.entry k) [
        | both b' c' e e' same' ↦
            both b' c' (rw (lookup-insert ip k (allow now b).1 l.limiters, elsewhere) e)
              (rw (lookup-insert ip k (allow now c).1 l'.limiters, elsewhere) e')
              (SameFrom-later t now b' c' order same')
        | swept b' e e' same' ↦
            swept b' (rw (lookup-insert ip k (allow now b).1 l.limiters, elsewhere) e)
              (rw (lookup-insert ip k (allow now c).1 l'.limiters, elsewhere) e')
              (SameFrom-later t now b' (new l.rate l.burst) order same')
        | neither e e' ↦
            neither (rw (lookup-insert ip k (allow now b).1 l.limiters, elsewhere) e)
              (rw (lookup-insert ip k (allow now c).1 l'.limiters, elsewhere) e')
      ]
    ]

    -- What one request shows and leaves, if the limiters have room for a new address.
    abbrev StepsAlike : Type 0
    StepsAlike =
        ((allow_ip lib l ip now).0 ≡ (allow_ip lib l' ip now).0)
        × Similar now (allow_ip lib l ip now).1 (allow_ip lib l' ip now).1

    token_step :
        (b c : Bucket)
        → SameFrom lib t b c
        → allow_ip lib l ip now ≡ take_token lib l ip now b
        → allow_ip lib l' ip now ≡ take_token lib l' ip now c
        → StepsAlike
    token_step b c same run run' =
        rw (run, run')
          (
            SameFrom-head t now b c order same,
            record {
              entry = λ k. other_entry b c k same;
              same_rate = sim.same_rate;
              same_burst = sim.same_burst;
            },
          )

    abbrev first : Bucket
    first = new l.rate l.burst

    second_run :
        lookup ip l'.limiters ≡ none
        → length l'.limiters < max_tracked_ips
        → allow_ip lib l' ip now ≡ take_token lib l' ip now first
    second_run e room =
        let alike : new l'.rate l'.burst ≡ first = cc (sim.same_rate, sim.same_burst) in
        allow_new lib l' ip now e room ∙ ap (take_token lib l' ip now) alike

    step : length l.limiters < max_tracked_ips → length l'.limiters < max_tracked_ips → StepsAlike
    step room room' = elim (sim.entry ip) [
      | both b c e e' same ↦
          token_step b c same (allow_known lib l ip now b e) (allow_known lib l' ip now c e')
      | swept b e e' same ↦
          token_step b first same (allow_known lib l ip now b e) (second_run e' room')
      | neither e e' ↦
          token_step first first (λ ts later. refl) (allow_new lib l ip now e room)
            (second_run e' room')
    ]

  run_requests-Similar :
      (t : ℕ) (l l' : Limiter lib) (rs : List (Text × ℕ))
      → Similar t l l'
      → InOrder t rs
      → length l.limiters + length rs ≤ max_tracked_ips
      → length l'.limiters + length rs ≤ max_tracked_ips
      → run_requests l rs ≡ run_requests l' rs
  run_requests-Similar t l l' [] sim order room room' = refl
  run_requests-Similar t l l' ((ip, now) ∷ rs) sim (later, order) room room' =
      let (same_answer, sim') = step t now l l' ip later sim (omega arith) (omega arith) in
      let rest =
        run_requests-Similar now (allow_ip lib l ip now).1 (allow_ip lib l' ip now).1 rs sim' order
          (omega (arith, length-allow_ip lib l ip now))
          (omega (arith, length-allow_ip lib l' ip now)) in
      ap₂ ◌∷◌ same_answer rest

  pub cleanup_changes_no_answer :
      (t : ℕ) (l : Limiter lib) (rs : List (Text × ℕ))
      → IsTokenBucket lib
      → IsBounded lib l
      → AllMade t l
      → InOrder t rs
      → length l.limiters + length rs ≤ max_tracked_ips
      → run_requests (cleanup_old_entries lib l t) rs ≡ run_requests l rs
  cleanup_changes_no_answer t l rs law bounded made order room = sym (
      run_requests-Similar t l (cleanup_old_entries lib l t) rs
        (cleanup-Similar t l law bounded made) order room (omega (arith, length-cleanup lib l t)))
