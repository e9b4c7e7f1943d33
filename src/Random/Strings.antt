-- ===== src/Random/Strings.antt =====
-- `RandString`: its length and its characters.
use gospidertrap.Common.{
  ℕ, zero, suc, ◌+◌, ◌*◌, ◌<◌, ◌≡◌, ◌≢◌, refl, List, [], ◌∷◌, some, arith, Text, length, get_elem?,
  get_elem?-total, All, All-get_elem?,
}
use gospidertrap.Common.Int.{pos}
use gospidertrap.Random.{
  Device, IsReliable, ok, Source, rand_rune, rand_runes, rand_string, encode_rune, encode_runes,
}
use gospidertrap.Random.Range.{intn_returns}

-- `c` stands at some index of `xs`.
abbrev pub Occurs {ℓ} : {A : Type ℓ} → List A → A → Type ℓ
Occurs xs c = (k : ℕ) × (get_elem? xs k ≡ some c)

encode_runes_ascii : (rs : List ℕ) → All (λ c. c < 128) rs → encode_runes rs ≡ rs
unfolding encode_rune
encode_runes_ascii [] h = refl
encode_runes_ascii (r ∷ rs) (p, h) = ground (arith, encode_runes_ascii rs h)

module _ (d : Device) (r : IsReliable d) where
  rand_rune_at :
      (xs : List ℕ) (i : ℕ)
      → xs ≢ []
      → (c : ℕ) × (rand_rune d (record { chars = xs }) i ≡ ok (c, i + 8)) × Occurs xs c
  unfolding rand_rune
  rand_rune_at [] i h = absurd (h refl)
  rand_rune_at (x ∷ xs) i h =
      let (k, run, lt) = intn_returns d r (length xs) i in
      let (c, found) = get_elem?-total (x ∷ xs) k lt in (c, ground (arith, run, found), (k, found))

  rand_runes_total :
      (s : Source) (n i : ℕ)
      → s.chars ≢ []
      → (rs : List ℕ) × (rand_runes d s n i ≡ ok (rs, i + 8 * n))
        × (length rs ≡ n)
        × All (Occurs s.chars) rs
  unfolding rand_runes
  rand_runes_total s zero i h = ([], ground arith, refl, tt)
  rand_runes_total s (suc n) i h =
      let (c, run, found) = rand_rune_at s.chars i h in
      let (rs, runs, size, all) = rand_runes_total s n (i + 8) h in
      (c ∷ rs, rw (run, runs) (ground arith), omega arith, (found, all))

  All-ascii : (xs rs : List ℕ) → All (λ c. c < 128) xs → All (Occurs xs) rs → All (λ c. c < 128) rs
  All-ascii xs [] h k = tt
  All-ascii xs (c ∷ rs) h ((i, found), k) =
      (All-get_elem? (λ c. c < 128) xs i h found, All-ascii xs rs h k)

  -- With a reliable device and a character set of ASCII characters that is not empty,
  -- `RandString(n)` returns, has read eight bytes for each character, and its result has `n` bytes,
  -- each of which is a character of the set.
  pub rand_string_of_chars :
      (s : Source) (n i : ℕ)
      → s.chars ≢ []
      → All (λ c. c < 128) s.chars
      → (t : Text) × (rand_string d s (pos n) i ≡ ok (t, i + 8 * n))
        × (length t ≡ n)
        × All (Occurs s.chars) t
  unfolding rand_string
  rand_string_of_chars s n i h ascii =
      let (rs, run, size, all) = rand_runes_total s n i h in
      let plain = encode_runes_ascii rs (All-ascii s.chars rs ascii all) in
      (rs, rw (run, plain) refl, size, all)
