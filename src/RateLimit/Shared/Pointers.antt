-- ===== src/RateLimit/Shared/Pointers.antt =====
-- The map of pointers to buckets, and the map of buckets that it stands for.
use gospidertrap.Common.{
  ℕ, suc, ◌+◌, ◌<◌, ◌≡◌, ◌≢◌, refl, ap, sym, Bool-cases, inl, inr, none, some, List, [], ◌∷◌, arith,
  Text, text_eq, length, All,
}
use gospidertrap.Stats.Table.{lookup, insert}
use gospidertrap.RateLimit.{RateLibrary, Limiter, sweep}
use gospidertrap.RateLimit.Shared.{update, Shared, sweep_pointers}

module _ (lib : RateLibrary) where
  open lib use {Bucket, new, allow, has_full_burst}

  -- The map with the buckets in place of the pointers.
  abbrev pub bound : (ℕ → Bucket) → List (Text × ℕ) → List (Text × Bucket)
  bound store [] = []
  bound store ((ip, p) ∷ m) = (ip, store p) ∷ bound store m

  abbrev pub view : Shared lib → Limiter lib
  view l = record { limiters = bound l.store l.pointers; rate = l.rate; burst = l.burst }

  -- No two addresses share a bucket.
  abbrev pub HasOwnBuckets : List (Text × ℕ) → Type 0
  HasOwnBuckets [] = Unit
  HasOwnBuckets ((ip, p) ∷ m) = All (λ e. e.1 ≢ p) m × HasOwnBuckets m

  pub update_same : (store : ℕ → Bucket) (p : ℕ) (b : Bucket) → update p b store p ≡ b
  unfolding update
  update_same store p b = ground arith

  pub update_other :
      (store : ℕ → Bucket) (p q : ℕ) (b : Bucket) → q ≢ p → update p b store q ≡ store q
  unfolding update
  update_other store p q b ne = ground (arith, ne)

  -- A pointer that is in no entry of the map is not that of an address.
  pub lookup-All :
      (ip : Text) (p q : ℕ) (m : List (Text × ℕ))
      → lookup ip m ≡ some q
      → All (λ e. e.1 ≢ p) m
      → q ≢ p
  unfolding lookup
  lookup-All ip p q [] e h = cc
  lookup-All ip p q ((k, r) ∷ m) e (ne, h) = elim (Bool-cases (text_eq k ip)) [
    | inl here ↦ λ same. ne (ground (arith, here, same))
    | inr there ↦ lookup-All ip p q m (ground (arith, there)) h
  ]

  pub lookup-below :
      (ip : Text) (p n : ℕ) (m : List (Text × ℕ))
      → lookup ip m ≡ some p
      → All (λ e. e.1 < n) m
      → p < n
  unfolding lookup
  lookup-below ip p n [] e h = cc
  lookup-below ip p n ((k, r) ∷ m) e (lt, h) = ground (arith, lookup-below ip p n m)

  pub below-apart : (n : ℕ) (m : List (Text × ℕ)) → All (λ e. e.1 < n) m → All (λ e. e.1 ≢ n) m
  below-apart n [] h = tt
  below-apart n (e ∷ m) (lt, h) = ((λ same. omega (arith, same)), below-apart n m h)

  pub weaken-below : (n : ℕ) (m : List (Text × ℕ)) → All (λ e. e.1 < n) m → All (λ e. e.1 < n + 1) m
  weaken-below n [] h = tt
  weaken-below n (e ∷ m) (lt, h) = (omega arith, weaken-below n m h)

  module _ (store : ℕ → Bucket) where
    pub lookup-bound-some :
        (ip : Text) (p : ℕ) (m : List (Text × ℕ))
        → lookup ip m ≡ some p
        → lookup ip (bound store m) ≡ some (store p)
    unfolding lookup
    lookup-bound-some ip p [] e = cc
    lookup-bound-some ip p ((k, q) ∷ m) e = ground (arith, lookup-bound-some ip p m)

    pub lookup-bound-none :
        (ip : Text) (m : List (Text × ℕ)) → lookup ip m ≡ none → lookup ip (bound store m) ≡ none
    unfolding lookup
    lookup-bound-none ip [] e = refl
    lookup-bound-none ip ((k, q) ∷ m) e = ground (arith, lookup-bound-none ip m)

    pub length-bound : (m : List (Text × ℕ)) → length (bound store m) ≡ length m
    length-bound [] = refl
    length-bound ((k, p) ∷ m) = ap suc (length-bound m)

    -- A bucket that no entry points to can change.
    pub bound-update :
        (p : ℕ) (b : Bucket) (m : List (Text × ℕ))
        → All (λ e. e.1 ≢ p) m
        → bound (update p b store) m ≡ bound store m
    bound-update p b [] h = refl
    bound-update p b ((k, q) ∷ m) (ne, h) =
        rw (update_other store p q b ne) (ap (◌∷◌ (k, store q)) (bound-update p b m h))

    -- The bucket of an address changes in the map when it changes behind its pointer.
    pub bound-insert_old :
        (ip : Text) (p : ℕ) (b : Bucket) (m : List (Text × ℕ))
        → HasOwnBuckets m
        → lookup ip m ≡ some p
        → bound (update p b store) m ≡ insert ip b (bound store m)
    unfolding lookup insert
    bound-insert_old ip p b [] own e = cc
    bound-insert_old ip p b ((k, q) ∷ m) (apart, own) e = elim (Bool-cases (text_eq k ip)) [
      | inl here ↦
          let same : q ≡ p = ground (arith, here) in
          rw (here, same, update_same store p b, bound-update p b m (rw same at apart)) refl
      | inr there ↦
          let e' : lookup ip m ≡ some p = ground (arith, there) in
          let ne : q ≢ p = λ same. lookup-All ip q p m e' apart (sym same) in
          rw (there, update_other store p q b ne)
            (ap (◌∷◌ (k, store q)) (bound-insert_old ip p b m own e'))
    ]

    -- A new entry.
    pub bound-insert_new :
        (ip : Text) (p : ℕ) (b : Bucket) (m : List (Text × ℕ))
        → All (λ e. e.1 ≢ p) m
        → lookup ip m ≡ none
        → bound (update p b store) (insert ip p m) ≡ insert ip b (bound store m)
    unfolding lookup insert
    bound-insert_new ip p b [] apart e = rw (update_same store p b) refl
    bound-insert_new ip p b ((k, q) ∷ m) (ne, apart) e = elim (Bool-cases (text_eq k ip)) [
      | inl here ↦ absurd (ground (arith, here))
      | inr there ↦
          rw (there, update_other store p q b ne)
            (ap (◌∷◌ (k, store q)) (bound-insert_new ip p b m apart (ground (arith, there))))
    ]

    pub bound-sweep_pointers :
        (now burst : ℕ) (m : List (Text × ℕ))
        → bound store (sweep_pointers lib now burst store m) ≡ sweep lib now burst (bound store m)
    unfolding sweep_pointers sweep
    bound-sweep_pointers now burst [] = refl
    bound-sweep_pointers now burst ((k, p) ∷ m) = ground (arith, bound-sweep_pointers now burst m)

  module _ (Q : ℕ → Type 0) where
    pub insert-All :
        (ip : Text) (p : ℕ) (m : List (Text × ℕ))
        → Q p
        → All (λ e. Q (e.1)) m
        → All (λ e. Q (e.1)) (insert ip p m)
    unfolding insert
    insert-All ip p [] q h = (q, tt)
    insert-All ip p ((k, r) ∷ m) q (here, h) = elim (Bool-cases (text_eq k ip)) [
      | inl e ↦ rw e (q, h)
      | inr e ↦ rw e (here, insert-All ip p m q h)
    ]

    pub sweep_pointers-All :
        (now burst : ℕ) (store : ℕ → Bucket) (m : List (Text × ℕ))
        → All (λ e. Q (e.1)) m
        → All (λ e. Q (e.1)) (sweep_pointers lib now burst store m)
    unfolding sweep_pointers
    sweep_pointers-All now burst store [] h = tt
    sweep_pointers-All now burst store ((k, r) ∷ m) (here, h) =
        elim (Bool-cases (has_full_burst now (store r) burst)) [
          | inl e ↦ rw e (sweep_pointers-All now burst store m h)
          | inr e ↦ rw e (here, sweep_pointers-All now burst store m h)
        ]

  pub insert-HasOwnBuckets :
      (ip : Text) (p : ℕ) (m : List (Text × ℕ))
      → All (λ e. e.1 ≢ p) m
      → HasOwnBuckets m
      → lookup ip m ≡ none
      → HasOwnBuckets (insert ip p m)
  unfolding insert lookup
  insert-HasOwnBuckets ip p [] apart own e = (tt, tt)
  insert-HasOwnBuckets ip p ((k, q) ∷ m) (ne, apart) (here, own) e =
      elim (Bool-cases (text_eq k ip)) [
        | inl h ↦ absurd (ground (arith, h))
        | inr h ↦ rw h (
          insert-All (λ r. r ≢ q) ip p m (λ same. ne (sym same)) here,
          insert-HasOwnBuckets ip p m apart own (ground (arith, h)),
        )
      ]

  pub sweep_pointers-HasOwnBuckets :
      (now burst : ℕ) (store : ℕ → Bucket) (m : List (Text × ℕ))
      → HasOwnBuckets m
      → HasOwnBuckets (sweep_pointers lib now burst store m)
  unfolding sweep_pointers
  sweep_pointers-HasOwnBuckets now burst store [] own = tt
  sweep_pointers-HasOwnBuckets now burst store ((k, q) ∷ m) (here, own) =
      elim (Bool-cases (has_full_burst now (store q) burst)) [
        | inl e ↦ rw e (sweep_pointers-HasOwnBuckets now burst store m own)
        | inr e ↦ rw e (
          sweep_pointers-All (λ r. r ≢ q) now burst store m here,
          sweep_pointers-HasOwnBuckets now burst store m own,
        )
      ]
