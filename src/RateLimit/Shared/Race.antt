-- ===== src/RateLimit/Shared/Race.antt =====
-- A run of the cleanup between the two parts of `Allow`.
use mathlib.Core.Path.{ap₂}
use gospidertrap.Common.{
  ℕ, ◌+◌, ◌≤◌, ◌<◌, ◌≡◌, refl, Bool, true, false, Bool-cases, inl, inr, some, none, List, [], ◌∷◌,
  arith, Text, text_eq, text_eq_iff, length,
}
use gospidertrap.Stats.Table.{lookup, insert, lookup-insert}
use gospidertrap.RateLimit.{max_tracked_ips, RateLibrary, Made}
use gospidertrap.RateLimit.Window.{IsLimiting}
use gospidertrap.RateLimit.Shared.Pointers.{update_same, update_other}
use gospidertrap.RateLimit.Shared.View.{
  enlarged, then_ask, found_known, found_new, allow_shared-find,
}
use gospidertrap.RateLimit.Shared.{
  update, Shared, find, ask, allow_shared, sweep_pointers, cleanup_shared,
}

module _ (lib : RateLibrary) where
  open lib use {Bucket, new, allow, has_full_burst}

  -- What the package documents of a new bucket with a burst of 1: it is full, and has a token.
  pub record StartsFull : Type 0 where
    pub full : (rate now : ℕ) → has_full_burst now (new rate 1) 1 ≡ true
    pub passes : (rate now : ℕ) → (allow now (new rate 1)).0 ≡ true

  module _ (now burst : ℕ) (store : ℕ → Bucket) (ip : Text) (p : ℕ)
      (full : has_full_burst now (store p) burst ≡ true) where
    lookup-sweep_pointers :
        (m : List (Text × ℕ))
        → lookup ip m ≡ none
        → lookup ip (sweep_pointers lib now burst store (insert ip p m)) ≡ none
    unfolding lookup insert sweep_pointers
    lookup-sweep_pointers [] e = rw full refl
    lookup-sweep_pointers ((k, q) ∷ m) e = elim (Bool-cases (text_eq k ip)) [
      | inl h ↦ absurd (ground (arith, h))
      | inr h ↦ ground (arith, h, lookup-sweep_pointers m)
    ]

    length-sweep_pointers :
        (m : List (Text × ℕ))
        → lookup ip m ≡ none
        → length (sweep_pointers lib now burst store (insert ip p m)) ≤ length m
    unfolding lookup insert sweep_pointers
    length-sweep_pointers [] e = rw full (omega arith)
    length-sweep_pointers ((k, q) ∷ m) e = elim (Bool-cases (text_eq k ip)) [
      | inl h ↦ absurd (ground (arith, h))
      | inr h ↦ ground (arith, h, length-sweep_pointers m)
    ]

  -- Two calls of `Allow` for one address, and a run of the cleanup between the parts of the first.
  unfoldable pub swept_answers : Shared lib → Text → ℕ → Bool × Bool
  swept_answers l ip now =
      let (first, l) = find lib l ip in
      let (second, l) = find lib (cleanup_shared lib l now) ip in
      let (answer, l) = then_ask lib now (first, l) in (answer, (then_ask lib now (second, l)).0)

  -- The same calls one after the other.
  unfoldable pub sequential_answers : Shared lib → Text → ℕ → Bool × Bool
  sequential_answers l ip now =
      let (answer, l) = allow_shared lib l ip now in (answer, (allow_shared lib l ip now).0)

  module _ (l : Shared lib) (ip : Text) (now : ℕ) (starts : StartsFull)
      (unknown : lookup ip l.pointers ≡ none) (room : length l.pointers < max_tracked_ips)
      (one : l.burst ≡ 1) where
    abbrev fresh : Bucket
    fresh = new l.rate l.burst

    fresh_passes : (allow now fresh).0 ≡ true
    fresh_passes = rw one (starts.passes l.rate now)

    abbrev found : Shared lib
    found = enlarged lib l ip

    abbrev swept : Shared lib
    swept = cleanup_shared lib found now

    first_found : find lib l ip ≡ (some l.next, found)
    first_found = found_new lib l ip unknown (ground arith)

    first_full : has_full_burst now (found.store l.next) l.burst ≡ true
    first_full = rw (update_same lib l.store l.next fresh, one) (starts.full l.rate now)

    second_found : find lib swept ip ≡ (some (l.next + 1), enlarged lib swept ip)
    unfolding cleanup_shared
    second_found =
        let few =
          length-sweep_pointers now l.burst found.store ip l.next first_full l.pointers unknown in
        found_new lib swept ip
          (lookup-sweep_pointers now l.burst found.store ip l.next first_full l.pointers unknown)
          (ground (arith, few))

    -- The answer of the bucket that the first call found.
    first_passes : (allow now (update (l.next + 1) fresh found.store l.next)).0 ≡ true
    first_passes =
        rw
          (
            update_other lib found.store (l.next + 1) l.next fresh (λ e. omega (arith, e)),
            update_same lib l.store l.next fresh,
          )
          fresh_passes

    -- And that of the second call's.
    second_passes :
        (b : Bucket)
        → (allow now (update l.next b (update (l.next + 1) fresh found.store) (l.next + 1))).0
          ≡ true
    second_passes b =
        rw
          (
            update_other lib (update (l.next + 1) fresh found.store) l.next (l.next + 1) b
                (λ e. omega (arith, e)),
            update_same lib found.store (l.next + 1) fresh,
          )
          fresh_passes

    both_pass : swept_answers l ip now ≡ (true, true)
    unfolding swept_answers ask cleanup_shared
    both_pass =
        rw (first_found, swept_answers, second_found)
          (ap₂ (λ a b. (a, b)) first_passes (second_passes _))

    -- The second call, if the first one is over.
    asked_again :
        (b : Bucket)
        → let left : Shared lib = record found { store = update l.next b found.store } in
          allow_shared lib left ip now ≡ ask lib left l.next now
    asked_again b =
        let left : Shared lib = record found { store = update l.next b found.store } in
        let there : lookup ip (insert ip l.next l.pointers) ≡ some l.next =
          rw (lookup-insert ip ip l.next l.pointers) (ground (arith, text_eq_iff ip ip)) in
        allow_shared-find lib left ip now (some l.next, left) (found_known lib left ip l.next there)

    limited : IsLimiting lib → (allow now (allow now fresh).1).0 ≡ false
    limited limiting = elim (Bool-cases (allow now (allow now fresh).1).0) [
      | inr refused ↦ refused
      | inl again ↦ absurd (
          ground (
            arith,
            again,
            fresh_passes,
            one,
            limiting.limits l.rate l.burst now now fresh (now ∷ now ∷ []) (Made.fresh now)
                (omega arith, (omega arith, omega arith)),
          ))
    ]

    one_passes : IsLimiting lib → sequential_answers l ip now ≡ (true, false)
    unfolding sequential_answers ask
    one_passes limiting =
        let first = allow_shared-find lib l ip now (some l.next, found) first_found in
        rw (first, sequential_answers, asked_again _) (ap₂ (λ a b. (a, b)) first_pass second_pass)
      where
        first_pass : (allow now (found.store l.next)).0 ≡ true
        first_pass = rw (update_same lib l.store l.next fresh) fresh_passes

        second_pass :
            (allow now (update l.next (allow now (found.store l.next)).1 found.store l.next)).0
            ≡ false
        second_pass =
            rw
              (
                update_same lib found.store l.next (allow now (found.store l.next)).1,
                update_same lib l.store l.next fresh,
              )
              (limited limiting)

    -- If the cleanup runs between the two parts of `Allow`, for an address that is new to a limiter with
    -- room and a burst of 1, two requests at one time are let through, each by a bucket of its own.
    -- Without the cleanup between them the second one is refused, if buckets keep to their rates.
    pub cleanup_between_lets_two_pass :
        IsLimiting lib
        → (swept_answers l ip now ≡ (true, true)) × (sequential_answers l ip now ≡ (true, false))
    cleanup_between_lets_two_pass limiting = (both_pass, one_passes limiting)
