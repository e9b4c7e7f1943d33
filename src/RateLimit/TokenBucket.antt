-- ===== src/RateLimit/TokenBucket.antt =====
-- A token bucket over the numbers, which meets what the library documents.
use Prim.Native.Nat.{min}
use gospidertrap.Common.{
  ℕ, ◌+◌, ◌-◌, ◌*◌, ◌≤◌, ◌≡◌, refl, ap, Bool-cases, inl, inr, Bool, true, false, List, [], ◌∷◌,
  arith, leb, leb→le, if◌then◌else◌,
}
use gospidertrap.RateLimit.{RateLibrary, Made, SameFrom, answers, IsTokenBucket}
use gospidertrap.RateLimit.Window.{passed, Within, IsLimiting}
use gospidertrap.RateLimit.Shared.Race.{StartsFull}

-- One token is 10^9 units; a nanosecond refills `rate` units.
pub record Bucket : Type 0 where
  pub rate : ℕ
  pub burst : ℕ
  pub units : ℕ
  pub last : ℕ

abbrev pub token : ℕ
token = 1_000_000_000

abbrev pub refilled : ℕ → Bucket → ℕ
refilled now b = min (b.burst * token) (b.units + b.rate * (now - b.last))

abbrev pub take_one : ℕ → Bucket → Bool × Bucket
take_one now b =
    if leb token (refilled now b)
    then (true, record b { units = refilled now b - token; last = now })
    else (false, record b { units = refilled now b; last = now })

abbrev pub token_bucket : RateLibrary
token_bucket = record {
  Bucket = Bucket;
  new = λ rate burst. record { rate = rate; burst = burst; units = burst * token; last = 0 };
  allow = take_one;
  has_full_burst = λ now b burst. leb (burst * token) (refilled now b);
}

-- What every bucket that a limiter made says of its rate, its burst and its time.
record Fits (rate burst now : ℕ) (b : Bucket) : Type 0 where
  same_rate : b.rate ≡ rate
  same_burst : b.burst ≡ burst
  past : b.last ≤ now

Made-Fits :
    {rate burst now : ℕ} {b : Bucket} → Made token_bucket rate burst now b → Fits rate burst now b
Made-Fits (Made.fresh now) = record { same_rate = refl; same_burst = refl; past = omega arith }
Made-Fits (Made.used {bucket = b} now h m) = let f = Made-Fits m in ground arith
Made-Fits (Made.later now h m) =
    let f = Made-Fits m in
    record { same_rate = f.same_rate; same_burst = f.same_burst; past = omega arith }

refill_mono : (r now t l : ℕ) → now ≤ t → r * (now - l) ≤ r * (t - l)
refill_mono r now t l h = let e : now - l ≤ t - l = omega arith in grind arith

full_refill :
    (rate burst now t : ℕ) (b : Bucket)
    → Fits rate burst now b
    → leb (burst * token) (refilled now b) ≡ true
    → now ≤ t
    → refilled t b ≡ burst * token
full_refill rate burst now t b f full h = omega (
  arith,
  refill_mono b.rate now t b.last h,
  leb→le (burst * token) (refilled now b) full,
  ap (λ (n : ℕ). n * token) f.same_burst,
)

new_refill :
    (rate burst t : ℕ)
    → refilled t (record { rate = rate; burst = burst; units = burst * token; last = 0 })
      ≡ burst * token
new_refill rate burst t = omega arith

full_step :
    (rate burst now t : ℕ) (b : Bucket)
    → Fits rate burst now b
    → leb (burst * token) (refilled now b) ≡ true
    → now ≤ t
    → take_one t b
      ≡ take_one t (record { rate = rate; burst = burst; units = burst * token; last = 0 })
full_step rate burst now t b f full h =
    ground (arith, full_refill rate burst now t b f full h, new_refill rate burst t)

pub token_bucket-IsTokenBucket : IsTokenBucket token_bucket
token_bucket-IsTokenBucket = record {
  full_is_new = λ rate burst now b made full. alike rate burst now b (Made-Fits made) full;
}
  where
    alike :
        (rate burst now : ℕ) (b : Bucket)
        → Fits rate burst now b
        → leb (burst * token) (refilled now b) ≡ true
        → SameFrom token_bucket now b
            (record { rate = rate; burst = burst; units = burst * token; last = 0 })
    alike rate burst now b f full [] later = refl
    alike rate burst now b f full (t ∷ ts) (h, later) =
        ap (λ (r : Bool × Bucket). r.0 ∷ answers token_bucket r.1 ts)
          (full_step rate burst now t b f full h)

-- What flows in from `a` to `c` flows in from `a` to `b` and from `b` to `c`.
span : (r a b c : ℕ) → a ≤ b → b ≤ c → r * (c - a) ≡ r * (b - a) + r * (c - b)
span r a b c h k = let e : c - a ≡ (b - a) + (c - b) = omega arith in rw e (grind arith)

Within-le : (s : ℕ) (us : List ℕ) (t : ℕ) → Within s us t → s ≤ t
Within-le s [] t w = w
Within-le s (u ∷ us) t (p, w) = omega (arith, Within-le u us t w)

-- What a bucket holds grows by no more than its rate gives.
grows :
    (rate burst s u : ℕ) (b : Bucket)
    → Fits rate burst s b
    → s ≤ u
    → refilled u b ≤ refilled s b + rate * (u - s)
grows rate burst s u b f p =
    omega (arith, span b.rate b.last s u f.past p, ap (λ (r : ℕ). r * (u - s)) f.same_rate)

just_filled :
    (b : Bucket) (u n : ℕ) → n ≤ refilled u b → refilled u (record b { units = n; last = u }) ≡ n
just_filled b u n h = let e : u - u ≡ 0 = omega arith in rw e (omega (arith, h))

limited_from :
    (rate burst s t : ℕ) (b : Bucket) (us : List ℕ)
    → Fits rate burst s b
    → Within s us t
    → passed (answers token_bucket b us) * token ≤ refilled s b + rate * (t - s)
limited_from rate burst s t b [] f w = omega arith
limited_from rate burst s t b (u ∷ us) f (p, w) =
    let whole = span rate s u t p (Within-le u us t w) in
    let grown = grows rate burst s u b f p in
    elim (Bool-cases (leb token (refilled u b))) [
      | inl e ↦
          let left : Bucket = record b { units = refilled u b - token; last = u } in
          let fits : Fits rate burst u left = record {
            same_rate = f.same_rate;
            same_burst = f.same_burst;
            past = omega arith;
          } in
          let rest = limited_from rate burst u t left us fits w in
          rw e (
            omega (
              arith,
              rest,
              whole,
              grown,
              leb→le token (refilled u b) e,
              just_filled b u (refilled u b - token) (omega arith),
            ))
      | inr e ↦
          let left : Bucket = record b { units = refilled u b; last = u } in
          let fits : Fits rate burst u left = record {
            same_rate = f.same_rate;
            same_burst = f.same_burst;
            past = omega arith;
          } in
          let rest = limited_from rate burst u t left us fits w in
          rw e (omega (arith, rest, whole, grown, just_filled b u (refilled u b) (omega arith)))
    ]

pub token_bucket-IsLimiting : IsLimiting token_bucket
token_bucket-IsLimiting = record {
  limits = λ rate burst s t b us made w.
      let f = Made-Fits made in
      omega (arith, limited_from rate burst s t b us f w, ap (λ (n : ℕ). n * token) f.same_burst);
}

pub token_bucket-StartsFull : StartsFull token_bucket
token_bucket-StartsFull = record {
  full = λ rate now. ground arith;
  passes = λ rate now. ground arith;
}
