-- ===== src/RateLimit/Shared/View.antt =====
-- Pointers to buckets against a map of buckets, if nothing comes between the two parts of `Allow`.
use gospidertrap.Common.{
  ℕ, ◌+◌, ◌<◌, ◌≡◌, refl, ap, ◌∙◌, Bool, true, false, Bool-cases, Option-cases, inl, inr, Option,
  none, some, List, [], ◌∷◌, arith, Text, leb, length, All,
}
use gospidertrap.Stats.Table.{lookup, insert}
use gospidertrap.RateLimit.{
  max_tracked_ips, RateLibrary, Limiter, allow_ip, take_token, cleanup_old_entries, Event, request,
  cleanup, apply_event, apply_events, new_limiter,
}
use gospidertrap.RateLimit.Capacity.{allow_known, allow_new}
use gospidertrap.RateLimit.Shared.Pointers.{
  bound, view, HasOwnBuckets, update_same, below-apart, weaken-below, lookup-bound-some,
  lookup-bound-none, length-bound, bound-update, bound-insert_old, bound-insert_new,
  bound-sweep_pointers, insert-All, sweep_pointers-All, insert-HasOwnBuckets,
  sweep_pointers-HasOwnBuckets,
}
use gospidertrap.RateLimit.Shared.{
  update, Shared, new_shared, find, ask, allow_shared, cleanup_shared, apply_shared,
  apply_all_shared,
}

module _ (lib : RateLibrary) where
  open lib use {Bucket, new, allow, has_full_burst}

  record IsSound (l : Shared lib) : Type 0 where
    own : HasOwnBuckets lib l.pointers
    used : All (λ e. e.1 < l.next) l.pointers

  -- A call of `Allow` leaves a sound limiter, and does what it does with a map of buckets.
  record Implements (l : Shared lib) (ip : Text) (now : ℕ) : Type 0 where
    answer : (allow_shared lib l ip now).0 ≡ (allow_ip lib (view lib l) ip now).0
    leaves : view lib (allow_shared lib l ip now).1 ≡ (allow_ip lib (view lib l) ip now).1
    sound : IsSound (allow_shared lib l ip now).1

  -- The limiter with a bucket for one more address.
  abbrev pub enlarged : Shared lib → Text → Shared lib
  enlarged l ip = record l {
    pointers = insert ip l.next l.pointers;
    store = update l.next (new l.rate l.burst) l.store;
    next = l.next + 1;
  }

  pub found_known :
      (l : Shared lib) (ip : Text) (p : ℕ)
      → lookup ip l.pointers ≡ some p
      → find lib l ip ≡ (some p, l)
  unfolding find
  found_known l ip p e = rw (e, find) refl

  pub found_new :
      (l : Shared lib) (ip : Text)
      → lookup ip l.pointers ≡ none
      → leb max_tracked_ips (length l.pointers) ≡ false
      → find lib l ip ≡ (some l.next, enlarged l ip)
  unfolding find
  found_new l ip e room = rw (e, find, room) refl

  pub found_none :
      (l : Shared lib) (ip : Text)
      → lookup ip l.pointers ≡ none
      → leb max_tracked_ips (length l.pointers) ≡ true
      → find lib l ip ≡ (none, l)
  unfolding find
  found_none l ip e full = rw (e, find, full) refl

  -- `Allow` from what the lookup gave on.
  abbrev pub then_ask : ℕ → Option ℕ × Shared lib → Bool × Shared lib
  then_ask now (none, l) = (false, l)
  then_ask now (some p, l) = ask lib l p now

  pub allow_shared-find :
      (l : Shared lib) (ip : Text) (now : ℕ) (found : Option ℕ × Shared lib)
      → find lib l ip ≡ found
      → allow_shared lib l ip now ≡ then_ask now found
  unfolding allow_shared
  allow_shared-find l ip now found e =
      ap (λ f. elim f.0 [ none ↦ (false, f.1) | some p ↦ ask lib f.1 p now ]) e ∙ go found
    where
      go :
          (f : Option ℕ × Shared lib)
          → elim f.0 [ none ↦ (false, f.1) | some p ↦ ask lib f.1 p now ] ≡ then_ask now f
      go (none, l) = refl
      go (some p, l) = refl

  refused_run :
      (l : Limiter lib) (ip : Text) (now : ℕ)
      → lookup ip l.limiters ≡ none
      → leb max_tracked_ips (length l.limiters) ≡ true
      → allow_ip lib l ip now ≡ (false, l)
  unfolding allow_ip
  refused_run l ip now e full = rw (e, allow_ip, full)

  implements :
      (l : Shared lib) (ip : Text) (now : ℕ) (out : Bool × Shared lib)
      (expected : Bool × Limiter lib)
      → allow_shared lib l ip now ≡ out
      → allow_ip lib (view lib l) ip now ≡ expected
      → out.0 ≡ expected.0
      → view lib out.1 ≡ expected.1
      → IsSound out.1
      → Implements l ip now
  implements l ip now out expected made run answer leaves sound = record {
    answer = rw (made, run) answer;
    leaves = rw (made, run) leaves;
    sound = rw made sound;
  }

  Implements-known :
      (l : Shared lib) (ip : Text) (now p : ℕ)
      → IsSound l
      → lookup ip l.pointers ≡ some p
      → Implements l ip now
  unfolding ask
  Implements-known l ip now p h e =
      let b = (allow now (l.store p)).1 in
      implements l ip now (ask lib l p now) (take_token lib (view lib l) ip now (l.store p))
        (allow_shared-find l ip now (some p, l) (found_known l ip p e))
        (allow_known lib (view lib l) ip now (l.store p)
          (lookup-bound-some lib l.store ip p l.pointers e))
        refl
        (ap (λ (m : List (Text × Bucket)). record (view lib l) { limiters = m })
          (bound-insert_old lib l.store ip p b l.pointers h.own e))
        (record { own = h.own; used = h.used })

  Implements-new :
      (l : Shared lib) (ip : Text) (now : ℕ)
      → IsSound l
      → lookup ip l.pointers ≡ none
      → leb max_tracked_ips (length l.pointers) ≡ false
      → Implements l ip now
  unfolding ask
  Implements-new l ip now h e room =
      let first = new l.rate l.burst in
      let apart = below-apart lib l.next l.pointers h.used in
      let store = update l.next first l.store in
      let b = (allow now (store l.next)).1 in
      let same_first : update l.next first l.store l.next ≡ first =
        update_same lib l.store l.next first in
      implements l ip now (ask lib (enlarged l ip) l.next now)
        (take_token lib (view lib l) ip now first)
        (allow_shared-find l ip now (some l.next, enlarged l ip) (found_new l ip e room))
        (allow_new lib (view lib l) ip now (lookup-bound-none lib l.store ip l.pointers e)
          (ground (arith, room, length-bound lib l.store l.pointers)))
        (ap (λ b. (allow now b).0) same_first)
        (ap (λ (m : List (Text × Bucket)). record (view lib l) { limiters = m })
          (bound-insert_new lib store ip l.next b l.pointers apart e
            ∙ ap (insert ip b) (bound-update lib l.store l.next first l.pointers apart)
            ∙ ap (λ c. insert ip (allow now c).1 (bound lib l.store l.pointers)) same_first))
        (record {
          own = insert-HasOwnBuckets lib ip l.next l.pointers apart h.own e;
          used =
              insert-All lib (λ p. p < l.next + 1) ip l.next l.pointers (omega arith)
                (weaken-below lib l.next l.pointers h.used);
        })

  allow_shared-Implements : (l : Shared lib) (ip : Text) (now : ℕ) → IsSound l → Implements l ip now
  allow_shared-Implements l ip now h = elim (Option-cases (lookup ip l.pointers)) [
    | inr (p, e) ↦ Implements-known l ip now p h e
    | inl e ↦ elim (Bool-cases (leb max_tracked_ips (length l.pointers))) [
      | inl full ↦
          implements l ip now (false, l) (false, view lib l)
            (allow_shared-find l ip now (none, l) (found_none l ip e full))
            (refused_run (view lib l) ip now (lookup-bound-none lib l.store ip l.pointers e)
              (rw (length-bound lib l.store l.pointers) full))
            refl refl h
      | inr room ↦ Implements-new l ip now h e room
    ]
  ]

  cleanup_shared-view :
      (l : Shared lib) (now : ℕ)
      → view lib (cleanup_shared lib l now) ≡ cleanup_old_entries lib (view lib l) now
  unfolding cleanup_shared cleanup_old_entries
  cleanup_shared-view l now =
      ap (λ (m : List (Text × Bucket)). record (view lib l) { limiters = m })
        (bound-sweep_pointers lib l.store now l.burst l.pointers)

  cleanup_shared-IsSound :
      (l : Shared lib) (now : ℕ) → IsSound l → IsSound (cleanup_shared lib l now)
  unfolding cleanup_shared
  cleanup_shared-IsSound l now h = record {
    own = sweep_pointers-HasOwnBuckets lib now l.burst l.store l.pointers h.own;
    used = sweep_pointers-All lib (λ p. p < l.next) now l.burst l.store l.pointers h.used;
  }

  apply_all_shared-view :
      (es : List (Event lib)) (l : Shared lib)
      → IsSound l
      → (view lib (apply_all_shared lib l es) ≡ apply_events lib (view lib l) es)
        × IsSound (apply_all_shared lib l es)
  unfolding apply_shared apply_event
  apply_all_shared-view [] l h = (refl, h)
  apply_all_shared-view (request ip now ∷ es) l h =
      let step = allow_shared-Implements l ip now h in
      let (same, sound) = apply_all_shared-view es (allow_shared lib l ip now).1 step.sound in
      (same ∙ ap (λ m. apply_events lib m es) step.leaves, sound)
  apply_all_shared-view (cleanup now ∷ es) l h =
      let (same, sound) =
        apply_all_shared-view es (cleanup_shared lib l now) (cleanup_shared-IsSound l now h) in
      (same ∙ ap (λ m. apply_events lib m es) (cleanup_shared-view l now), sound)

  -- If nothing comes between the two parts of `Allow`, the limiter whose map holds pointers to buckets
  -- is one whose map holds the buckets themselves: after any requests and cleanups it has the same
  -- entries, and it gives the next request the same answer.
  pub shared_implements :
      (rate burst : ℕ) (es : List (Event lib)) (ip : Text) (now : ℕ)
      → let l : Shared lib = apply_all_shared lib (new_shared lib rate burst) es in
        let m : Limiter lib = apply_events lib (new_limiter lib rate burst) es in
        (view lib l ≡ m) × ((allow_shared lib l ip now).0 ≡ (allow_ip lib m ip now).0)
  unfolding new_shared new_limiter
  shared_implements rate burst es ip now =
      let (same, sound) =
        apply_all_shared-view es (new_shared lib rate burst) (record { own = tt; used = tt }) in
      let last =
        allow_shared-Implements (apply_all_shared lib (new_shared lib rate burst) es) ip now
          sound in
      (same, last.answer ∙ ap (λ m. (allow_ip lib m ip now).0) same)
