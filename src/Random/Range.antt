-- ===== src/Random/Range.antt =====
-- What `Intn`, `RandomInt` and `RandString` return, and when they panic.
use gospidertrap.Common.{ℕ, suc, ◌+◌, ◌-◌, ◌%◌, ◌^◌, ◌<◌, ◌≡◌, refl, arith}
use gospidertrap.Common.Int.{
  ℤ, pos, pos_part, neg_part, int64, ◌+ℤ◌, ◌-ℤ◌, ◌≤ℤ◌, IsInt, int64_of_IsInt, +ℤ_parts, parts_zero,
}
use gospidertrap.Random.{Device, IsReliable, ok, big_endian, read_word, intn, random_int}

-- `max-min+1` does not wrap around where the range has fewer than 2^63 members.
span_lem :
    (min max : ℤ)
    → min ≤ℤ max
    → pos_part max + neg_part min + 1 < 2 ^ 63 + neg_part max + pos_part min
    → (m : ℕ) × (int64 (int64 (max -ℤ min) +ℤ pos 1) ≡ pos (suc m))
      × (pos_part max + neg_part min ≡ m + neg_part max + pos_part min)
unfolding int64 ◌+ℤ◌ ◌-ℤ◌
span_lem min max h small =
    ((pos_part max + neg_part min) - (neg_part max + pos_part min), ground arith, omega arith)

shift_lem :
    (min max : ℤ) (m k : ℕ)
    → IsInt min
    → IsInt max
    → pos_part max + neg_part min ≡ m + neg_part max + pos_part min
    → k < suc m
    → (min ≤ℤ int64 (pos k +ℤ min)) × (int64 (pos k +ℤ min) ≤ℤ max)
shift_lem min max m k hmin hmax e lt =
    rw (int64_of_IsInt (pos k +ℤ min) fits) (
      omega
        (arith, +ℤ_parts (pos k) min, parts_zero (pos k +ℤ min), parts_zero min, parts_zero max))
  where
    fits : IsInt (pos k +ℤ min)
    fits =
        omega
          (arith, +ℤ_parts (pos k) min, parts_zero (pos k +ℤ min), parts_zero min, parts_zero max)

module _ (d : Device) (r : IsReliable d) where
  -- With a reliable device, `Intn(n)` for n > 0 reads eight bytes and returns a number below n.
  pub intn_returns : (n i : ℕ) → (k : ℕ) × (intn d (pos (suc n)) i ≡ ok (k, i + 8)) × (k < suc n)
  unfolding intn read_word
  intn_returns n i = (big_endian d 0 i 8 % suc n, ground (arith, r.never_fails i), grind arith)

  -- With a reliable device, for every pair of `int`s min ≤ max whose difference stays below
  -- 2^63 - 1, `RandomInt(min, max)` reads eight bytes and returns a number from min to max.
  pub random_int_in_range :
      (min max : ℤ) (i : ℕ)
      → IsInt min
      → IsInt max
      → min ≤ℤ max
      → pos_part max + neg_part min + 1 < 2 ^ 63 + neg_part max + pos_part min
      → (z : ℤ) × (random_int d min max i ≡ ok (z, i + 8)) × (min ≤ℤ z) × (z ≤ℤ max)
  unfolding random_int
  random_int_in_range min max i hmin hmax h small =
      let (m, span, size) = span_lem min max h small in
      let (k, run, lt) = intn_returns m i in
      let (lower, upper) = shift_lem min max m k hmin hmax size lt in
      (int64 (pos k +ℤ min), rw (span, run) refl, lower, upper)
