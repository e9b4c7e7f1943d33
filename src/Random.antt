-- ===== src/Random.antt =====
-- internal/random/source.go: random numbers and strings from crypto/rand.
pub mod Range
pub mod Strings
pub mod Bias
mod Tests
use gospidertrap.Common.{
  ℕ, zero, suc, ◌+◌, ◌*◌, ◌/◌, ◌%◌, ◌<◌, ◌≡◌, Bool, false, ◌&&◌, ◌||◌, none, some, List, [], ◌∷◌,
  ◌++◌, Text, length, get_elem?, ltb, leb, if◌then◌else◌,
}
use gospidertrap.Common.Int.{ℤ, pos, negsuc, int64, ◌+ℤ◌, ◌-ℤ◌}

-- crypto/rand, the source of randomness outside the program: a stream of bytes, and whether a
-- `Read` that starts at an offset of the stream fails.
pub record Device : Type 0 where
  pub byte_at : ℕ → ℕ
  pub fails_at : ℕ → Bool

-- What package crypto/rand documents: `Read` yields bytes, and never returns an error.
pub record IsReliable (d : Device) : Type 0 where
  pub bytes : (i : ℕ) → d.byte_at i < 256
  pub never_fails : (i : ℕ) → d.fails_at i ≡ false

-- A computation that may panic. The state is the offset in the device's stream.
pub data Outcome {ℓ} (A : Type ℓ) : Type ℓ where
  ok : A → Outcome A
  panic : Outcome A

abbrev pub Rand {ℓ} : Type ℓ → Type ℓ
Rand A = ℕ → Outcome (A × ℕ)

abbrev pub bind_outcome {ℓ κ} : {A : Type ℓ} {B : Type κ} → Outcome A → (A → Outcome B) → Outcome B
bind_outcome (ok a) f = f a
bind_outcome panic f = panic

infixl 5 ◌>>=◌
abbrev pub ◌>>=◌ {ℓ κ} : {A : Type ℓ} {B : Type κ} → Rand A → (A → Rand B) → Rand B
◌>>=◌ m f i = bind_outcome (m i) (λ r. f r.0 r.1)

abbrev pub pure {ℓ} : {A : Type ℓ} → A → Rand A
pure a i = ok (a, i)

-- `binary.BigEndian.Uint64` of the `n` bytes at an offset, behind the bytes already read.
abbrev pub big_endian : Device → ℕ → ℕ → ℕ → ℕ
big_endian d acc i zero = acc
big_endian d acc i (suc n) = big_endian d (acc * 256 + d.byte_at i) (i + 1) n

-- `rand.Read(b[:])` of eight bytes, which panics on an error, and their number.
unfoldable pub read_word : Device → Rand ℕ
read_word d i = if d.fails_at i then panic else ok (big_endian d 0 i 8, i + 8)

module _ (d : Device) where
  unfoldable pub intn : ℤ → Rand ℕ
  intn (negsuc n) i = panic
  intn (pos zero) i = panic
  intn (pos (suc n)) i = bind_outcome (read_word d i) (λ r. ok (r.0 % suc n, r.1))

  unfoldable pub random_int : ℤ → ℤ → Rand ℤ
  random_int min max i =
      bind_outcome (intn (int64 (int64 (max -ℤ min) +ℤ pos 1)) i)
        (λ r. ok (int64 (pos r.0 +ℤ min), r.1))

-- The bytes of a rune in UTF-8; a number that is no code point is written as U+FFFD.
unfoldable pub encode_rune : ℕ → Text
encode_rune r =
    if ltb r 0x80
    then r ∷ []
    else if ltb r 0x800
    then (0xc0 + r / 64) ∷ (0x80 + r % 64) ∷ []
    else if ltb 0x10ffff r || (leb 0xd800 r && leb r 0xdfff)
    then 0xef ∷ 0xbf ∷ 0xbd ∷ []
    else if ltb r 0x10000
    then (0xe0 + r / 4096) ∷ (0x80 + r / 64 % 64) ∷ (0x80 + r % 64) ∷ []
    else (0xf0 + r / 262144) ∷ (0x80 + r / 4096 % 64) ∷ (0x80 + r / 64 % 64) ∷ (0x80 + r % 64) ∷ []

abbrev pub encode_runes : List ℕ → Text
encode_runes [] = []
encode_runes (r ∷ rs) = encode_rune r ++ encode_runes rs

pub record Source : Type 0 where
  pub chars : List ℕ

-- `[]rune(charSet)`, of the code points of the text; the seed is ignored.
unfoldable pub new_source : List ℕ → ℤ → Source
new_source char_set seed = record { chars = char_set }

-- An index expression, which panics out of range.
abbrev pub index {ℓ} : {A : Type ℓ} → List A → ℕ → Rand A
index xs k i = elim (get_elem? xs k) [ none ↦ panic | some x ↦ ok (x, i) ]

module _ (d : Device) (s : Source) where
  unfoldable pub rand_rune : Rand ℕ
  rand_rune = do k ← intn d (pos (length s.chars)); index s.chars k

  -- The loop over `b`, by the rounds left.
  unfoldable pub rand_runes : ℕ → Rand (List ℕ)
  rand_runes zero = pure []
  rand_runes (suc n) = do r ← rand_rune; rs ← rand_runes n; pure (r ∷ rs)

  unfoldable pub rand_string : ℤ → Rand Text
  rand_string (negsuc n) i = panic
  rand_string (pos n) i = bind_outcome (rand_runes n i) (λ r. ok (encode_runes r.0, r.1))
