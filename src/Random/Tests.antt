-- ===== src/Random/Tests.antt =====
-- The theorems on random numbers at concrete inputs, and runs of the model.
use gospidertrap.Common.{ℕ, ◌+◌, ◌%◌, ◌^◌, ◌<◌, ◌≡◌, refl, false, arith, if◌then◌else◌, ltb}
use gospidertrap.Common.Int.{ℤ, pos, negsuc, ◌≤ℤ◌, int64, ◌+ℤ◌, ◌-ℤ◌}
use gospidertrap.Random.{Device, IsReliable, ok, read_word, intn, random_int}
use gospidertrap.Random.Range.{intn_returns, random_int_in_range}
use gospidertrap.Random.Bias.{words_to, char_bias}

-- The bytes 0, 1, 2, … of the offsets.
abbrev counting : Device
counting = record { byte_at = λ i. i % 256; fails_at = λ i. false }

counting-IsReliable : IsReliable counting
counting-IsReliable = record { bytes = λ i. omega arith; never_fails = λ i. refl }

intn_returns_example : (k : ℕ) × (intn counting (pos 10) 3 ≡ ok (k, 11)) × (k < 10)
intn_returns_example = intn_returns counting counting-IsReliable 9 3

random_int_in_range_example :
    (z : ℤ) × (random_int counting (negsuc 2) (pos 4) 0 ≡ ok (z, 8))
    × (negsuc 2 ≤ℤ z)
    × (z ≤ℤ pos 4)
random_int_in_range_example =
    random_int_in_range counting counting-IsReliable (negsuc 2) (pos 4) 0 (omega arith)
      (omega arith) (omega arith) (omega arith)

char_bias_example : words_to (2 ^ 64) 3 ≡ 283796062672454640 + (if ltb 3 16 then 1 else 0)
char_bias_example = char_bias 3 (omega arith)

random_int_runs : random_int counting (pos 5) (pos 10) 0 ≡ ok (pos 6, 8)
unfolding random_int intn read_word int64 ◌+ℤ◌ ◌-ℤ◌
random_int_runs = refl
