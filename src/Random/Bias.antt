-- ===== src/Random/Bias.antt =====
-- How many of the 2^64 words of the device `RandString` takes to each character of main.go's set.
use gospidertrap.Common.{
  ℕ, zero, suc, ◌+◌, ◌-◌, ◌/◌, ◌%◌, ◌^◌, ◌≤◌, ◌<◌, ◌≡◌, arith, Bool, false, ltb, ◌==◌,
  if◌then◌else◌, length, codes, List,
}
use gospidertrap.Common.Int.{pos}
use gospidertrap.Random.{Device, Outcome, ok, panic, read_word, intn}

-- `charSpace` of main.go.
abbrev pub char_space : List ℕ
char_space = codes "abcdefghijklmnopqrstuvwxyzABCDEFGHIJKLMNOPQRSTUVWXYZ1234567890_-/"

abbrev byte_of : ℕ → ℕ → ℕ
byte_of v zero = v / 2 ^ 56 % 256
byte_of v (suc zero) = v / 2 ^ 48 % 256
byte_of v (suc (suc zero)) = v / 2 ^ 40 % 256
byte_of v (suc (suc (suc zero))) = v / 2 ^ 32 % 256
byte_of v (suc (suc (suc (suc zero)))) = v / 2 ^ 24 % 256
byte_of v (suc (suc (suc (suc (suc zero))))) = v / 2 ^ 16 % 256
byte_of v (suc (suc (suc (suc (suc (suc zero)))))) = v / 2 ^ 8 % 256
byte_of v (suc (suc (suc (suc (suc (suc (suc i))))))) = v % 256

-- A device whose first eight bytes are those of the word `v`.
pub word_device : ℕ → Device
word_device v = record { byte_at = byte_of v; fails_at = λ i. false }

read_word_device : (v : ℕ) → v < 2 ^ 64 → read_word (word_device v) 0 ≡ ok (v, 8)
unfolding word_device read_word
read_word_device v h = ground arith

-- Whether a run returned the number `r`.
abbrev pub returned : Outcome (ℕ × ℕ) → ℕ → Bool
returned (ok (k, i)) r = k == r
returned panic r = false

-- The number of words below `bound` that `Intn(65)` takes to `r`.
pub words_to : ℕ → ℕ → ℕ
words_to zero r = 0
words_to (suc bound) r =
    words_to bound r
    + (if returned (intn (word_device bound) (pos (length char_space)) 0) r then 1 else 0)

intn_word : (v : ℕ) → v < 2 ^ 64 → intn (word_device v) (pos (length char_space)) 0 ≡ ok (v % 65, 8)
unfolding intn
intn_word v h = rw (read_word_device v h)

words_to_closed : (bound r : ℕ) → bound ≤ 2 ^ 64 → r < 65 → words_to bound r ≡ (bound + 64 - r) / 65
unfolding words_to
words_to_closed zero r h lt = omega arith
words_to_closed (suc bound) r h lt =
    rw (intn_word bound h) (ground (arith, words_to_closed bound r (omega arith) lt))

-- The first sixteen of the 65 characters of main.go's character set are each selected for one more
-- of the 2^64 words of the device than each of the others.
pub char_bias :
    (r : ℕ)
    → r < length char_space
    → words_to (2 ^ 64) r ≡ 283796062672454640 + (if ltb r 16 then 1 else 0)
char_bias r h = ground (arith, words_to_closed (2 ^ 64) r)
