-- ===== src/Admin/Token.antt =====
-- internal/admin/auth.go: what the generated tokens and paths look like.
use gospidertrap.Common.{
  ℕ, zero, suc, ◌+◌, ◌*◌, ◌/◌, ◌%◌, ◌≤◌, ◌<◌, ◌≡◌, refl, ap, ◌⊎◌, Bool, some, [], ◌∷◌, arith, Text,
  ltb, if◌then◌else◌, length, length-take, take, All, All-take, Bool-cases, inl, inr,
}
use gospidertrap.Random.{Device, IsReliable}
use gospidertrap.Admin.Auth.{
  sextet, encode_raw_url, bytes_from, read, generate_secure_random_string, generate_admin_path,
  new_authenticator,
}

-- A letter, a digit, a hyphen or an underscore: what needs no escape in a URL.
abbrev pub IsUrlSafe : ℕ → Type 0
IsUrlSafe c =
    ((b'A' ≤ c) × (c ≤ b'Z'))
    ⊎ ((b'a' ≤ c) × (c ≤ b'z'))
    ⊎ ((b'0' ≤ c) × (c ≤ b'9'))
    ⊎ (c ≡ b'-')
    ⊎ (c ≡ b'_')

sextet-IsUrlSafe : (n : ℕ) → n < 64 → IsUrlSafe (sextet b'-' b'_' n)
unfolding sextet
sextet-IsUrlSafe n h = ground arith

encode_raw_url-IsUrlSafe : (s : Text) → All (λ c. c < 256) s → All IsUrlSafe (encode_raw_url s)
unfolding encode_raw_url
encode_raw_url-IsUrlSafe [] h = tt
encode_raw_url-IsUrlSafe (a ∷ []) (p, h) =
    (sextet-IsUrlSafe (a / 4) (omega arith), (sextet-IsUrlSafe (a % 4 * 16) (omega arith), tt))
encode_raw_url-IsUrlSafe (a ∷ b ∷ []) (p, (q, h)) = (
  sextet-IsUrlSafe (a / 4) (omega arith),
  (
    sextet-IsUrlSafe (a % 4 * 16 + b / 16) (omega arith),
    (sextet-IsUrlSafe (b % 16 * 4) (omega arith), tt),
  ),
)
encode_raw_url-IsUrlSafe (a ∷ b ∷ c ∷ s) (p, (q, (r, h))) = (
  sextet-IsUrlSafe (a / 4) (omega arith),
  (
    sextet-IsUrlSafe (a % 4 * 16 + b / 16) (omega arith),
    (
      sextet-IsUrlSafe (b % 16 * 4 + c / 64) (omega arith),
      (sextet-IsUrlSafe (c % 64) (omega arith), encode_raw_url-IsUrlSafe s h),
    ),
  ),
)

length-encode_raw_url : (s : Text) → length s ≤ length (encode_raw_url s)
unfolding encode_raw_url
length-encode_raw_url [] = omega arith
length-encode_raw_url (a ∷ []) = omega arith
length-encode_raw_url (a ∷ b ∷ []) = omega arith
length-encode_raw_url (a ∷ b ∷ c ∷ s) = omega (arith, length-encode_raw_url s)

bytes_from_bounded : (d : Device) (i n : ℕ) → IsReliable d → All (λ c. c < 256) (bytes_from d i n)
bytes_from_bounded d i zero h = tt
bytes_from_bounded d i (suc n) h = (h.bytes i, bytes_from_bounded d (i + 1) n h)

length-bytes_from : (d : Device) (i n : ℕ) → length (bytes_from d i n) ≡ n
length-bytes_from d i zero = refl
length-bytes_from d i (suc n) = omega (arith, length-bytes_from d (i + 1) n)

-- `n` characters of this kind.
abbrev pub IsSafeText : ℕ → Text → Type 0
IsSafeText n s = (length s ≡ n) × All IsUrlSafe s

-- As many bytes are read as the text is to have characters.
num_bytes_eq : (len : ℕ) → (if ltb (len * 3 / 4) len then len else len * 3 / 4) ≡ len
num_bytes_eq len = ground arith

trimmed_length :
    (len : ℕ) (s : Text)
    → len ≤ length s
    → length (if ltb len (length s) then take len s else s) ≡ len
trimmed_length len s h = elim (Bool-cases (ltb len (length s))) [
  | inl e ↦ rw (e, length-take len s) (omega arith)
  | inr e ↦ rw e (ground arith)
]

trimmed_safe :
    (b : Bool) (len : ℕ) (s : Text) → All IsUrlSafe s → All IsUrlSafe (if b then take len s else s)
trimmed_safe b len s h = elim (Bool-cases b) [
  | inl e ↦ rw e (All-take IsUrlSafe len s h)
  | inr e ↦ rw e h
]

generate_secure_random_string_total :
    (d : Device) (len i : ℕ)
    → IsReliable d
    → (s : Text) × (generate_secure_random_string d len i ≡ some (s, i + len)) × IsSafeText len s
unfolding generate_secure_random_string read
generate_secure_random_string_total d len i h =
    let bytes = bytes_from d i len in
    let encoded = encode_raw_url bytes in
    (
      if ltb len (length encoded) then take len encoded else encoded,
      rw (num_bytes_eq len, h.never_fails i, generate_secure_random_string) refl,
      (
        trimmed_length len encoded
            (omega (arith, length-encode_raw_url bytes, length-bytes_from d i len)),
        trimmed_safe (ltb len (length encoded)) len encoded
            (encode_raw_url-IsUrlSafe bytes (bytes_from_bounded d i len h)),
      ),
    )

new_authenticator_of :
    (d : Device) (use_https : Bool) (i j k : ℕ) (token path : Text)
    → generate_secure_random_string d 32 i ≡ some (token, j)
    → generate_secure_random_string d 32 j ≡ some (path, k)
    → new_authenticator d use_https i
      ≡ some (record { token = token; path = b'/' ∷ path; use_https = use_https }, k)
unfolding new_authenticator generate_admin_path
new_authenticator_of d use_https i j k token path h h' = rw (h, h', new_authenticator) refl

-- With a reliable device `NewAuthenticator` returns, has read 64 bytes, and its token has 32
-- characters, its path a slash and 32 characters, each of them a letter, a digit, a hyphen or an
-- underscore.
pub new_authenticator_total :
    (d : Device) (use_https : Bool) (i : ℕ)
    → IsReliable d
    → (token path : Text) × (new_authenticator d use_https i
        ≡ some (record { token = token; path = b'/' ∷ path; use_https = use_https }, i + 64))
      × IsSafeText 32 token
      × IsSafeText 32 path
new_authenticator_total d use_https i h =
    let (token, made, safe) = generate_secure_random_string_total d 32 i h in
    let (path, made', safe') = generate_secure_random_string_total d 32 (i + 32) h in
    (
      token,
      path,
      rw (new_authenticator_of d use_https i (i + 32) (i + 32 + 32) token path made made') (
          ap (λ k. some (record { token = token; path = b'/' ∷ path; use_https = use_https }, k))
            (omega arith)),
      safe,
      safe',
    )
