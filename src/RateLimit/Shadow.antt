-- ===== src/RateLimit/Shadow.antt =====
-- The bucket that the limiter seems to keep for an address, however often the cleanup removes it.
use gospidertrap.Common.{
  ℕ, ◌≤◌, ◌≡◌, ◌≢◌, ◌⊎◌, refl, sym, ◌∙◌, false, inl, inr, none, some, arith, Text, text_eq,
  text_eq_iff,
}
use gospidertrap.Stats.Table.{lookup, insert, lookup-insert}
use gospidertrap.RateLimit.{
  RateLibrary, SameFrom, IsTokenBucket, Limiter, take_token, allow_ip, cleanup_old_entries,
}
use gospidertrap.RateLimit.Cleanup.{
  AllMade, lookup-sweep, SameFrom-head, SameFrom-tail, SameFrom-later,
}
use gospidertrap.RateLimit.Capacity.{
  known, admitted, refused, verdict, lookup-sweep-none, IsBounded,
}

module _ (lib : RateLibrary) where
  open lib use {Bucket, new, allow, has_full_burst}

  SameFrom-sym : (t : ℕ) (b c : Bucket) → SameFrom lib t b c → SameFrom lib t c b
  SameFrom-sym t b c same us later = sym (same us later)

  SameFrom-trans :
      (t : ℕ) (b c d : Bucket) → SameFrom lib t b c → SameFrom lib t c d → SameFrom lib t b d
  SameFrom-trans t b c d same same' us later = same us later ∙ same' us later

  -- A bucket that answers as the limiter does for the address, from `t` on, and is never removed.
  pub data Shadow (t : ℕ) (ip : Text) (l : Limiter lib) (g : Bucket) : Type 0 where
    held : (b : Bucket) → lookup ip l.limiters ≡ some b → SameFrom lib t b g → Shadow t ip l g
    absent : lookup ip l.limiters ≡ none → SameFrom lib t (new l.rate l.burst) g → Shadow t ip l g

  pub Shadow-later :
      (t now : ℕ) (ip : Text) (l : Limiter lib) (g : Bucket)
      → t ≤ now
      → Shadow t ip l g
      → Shadow now ip l g
  Shadow-later t now ip l g h (held b e same) = held b e (SameFrom-later lib t now b g h same)
  Shadow-later t now ip l g h (absent e same) =
      absent e (SameFrom-later lib t now (new l.rate l.burst) g h same)

  -- The cleanup removes a bucket only when it answers as a new one.
  pub cleanup-Shadow :
      (t : ℕ) (ip : Text) (l : Limiter lib) (g : Bucket)
      → IsTokenBucket lib
      → IsBounded lib l
      → AllMade lib t l
      → Shadow t ip l g
      → Shadow t ip (cleanup_old_entries lib l t) g
  unfolding cleanup_old_entries
  cleanup-Shadow t ip l g law bounded made (absent e same) =
      absent (lookup-sweep-none lib t l.burst ip l.limiters e) same
  cleanup-Shadow t ip l g law bounded made (held b e same) =
      elim (lookup-sweep lib t l.burst ip l.limiters b bounded.distinct e) [
        | inl (full, gone) ↦ absent gone (
            SameFrom-trans t (new l.rate l.burst) b g
              (SameFrom-sym t b (new l.rate l.burst)
                (law.full_is_new l.rate l.burst t b (made ip b e) full))
              same)
        | inr kept ↦ held b kept same
      ]

  -- A request of another address.
  pub other-Shadow :
      (now : ℕ) (k ip : Text) (l : Limiter lib) (g : Bucket)
      → text_eq k ip ≡ false
      → Shadow now ip l g
      → Shadow now ip (allow_ip lib l k now).1 g
  other-Shadow now k ip l g other sh = elim (verdict lib l k now) [
    | known b e run ↦ rw run (left (allow now b).1 sh)
    | admitted e room run ↦ rw run (left (allow now (new l.rate l.burst)).1 sh)
    | refused e full run ↦ rw run sh
  ]
    where
      left :
          (c : Bucket)
          → Shadow now ip l g
          → Shadow now ip (record l { limiters = insert k c l.limiters }) g
      left c (held b e same) = held b (rw (lookup-insert k ip c l.limiters, other) e) same
      left c (absent e same) = absent (rw (lookup-insert k ip c l.limiters, other) e) same

  -- A request of the address itself: the bucket is asked as well, or the limiter is full and refuses it.
  abbrev pub OwnStep : ℕ → Text → Limiter lib → Bucket → Type 0
  OwnStep now ip l g =
      (((allow_ip lib l ip now).0 ≡ (allow now g).0)
        × Shadow now ip (allow_ip lib l ip now).1 (allow now g).1)
      ⊎ (((allow_ip lib l ip now).0 ≡ false) × Shadow now ip (allow_ip lib l ip now).1 g)

  asked :
      (now : ℕ) (ip : Text) (l : Limiter lib) (g b : Bucket)
      → SameFrom lib now b g
      → allow_ip lib l ip now ≡ take_token lib l ip now b
      → OwnStep now ip l g
  asked now ip l g b same run = rw run (
      inl (
        SameFrom-head lib now now b g (omega arith) same,
        held (allow now b).1
            (rw (lookup-insert ip ip (allow now b).1 l.limiters)
              (ground (arith, text_eq_iff ip ip)))
            (SameFrom-tail lib now now b g (omega arith) same),
      ))

  pub own_step :
      (now : ℕ) (ip : Text) (l : Limiter lib) (g : Bucket) → Shadow now ip l g → OwnStep now ip l g
  own_step now ip l g (held b e same) = elim (verdict lib l ip now) [
    | known c e' run ↦ asked now ip l g c (rw (some_eq b c (sym e ∙ e')) at same) run
    | admitted e' room run ↦ absurd (none_some b (sym e' ∙ e))
    | refused e' full run ↦ absurd (none_some b (sym e' ∙ e))
  ]
    where
      some_eq : (b c : Bucket) → some b ≡ some c → b ≡ c
      some_eq b c h = cc

      none_some : (b : Bucket) → none ≢ some b
      none_some b h = cc
  own_step now ip l g (absent e same) = elim (verdict lib l ip now) [
    | known c e' run ↦ absurd (none_some c (sym e ∙ e'))
    | admitted e' room run ↦ asked now ip l g (new l.rate l.burst) same run
    | refused e' full run ↦ rw run (inr (refl, absent e same))
  ]
    where
      none_some : (b : Bucket) → none ≢ some b
      none_some b h = cc
