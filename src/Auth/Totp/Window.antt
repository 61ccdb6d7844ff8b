-- ===== src/Auth/Totp/Window.antt =====
-- Which counters VerifyTOTPCounter (internal/auth/totp.go) accepts, against RFC 6238 and RFC 4226.
use nft_okboy_fleet.Prelude.{
  ℕ, zero, suc, ◌+◌, ◌-◌, ◌*◌, ◌/◌, ◌%◌, ◌^◌, ◌≤◌, ◌<◌, ◌≡◌, refl, sym, ◌∙◌, ◌≢◌, inl, inr, true,
  Option, none, some, List, [], ◌∷◌, arith, ◌==◌, nat_discrete, Bool-discrete, Bool-cases, ℤ, pos,
  negsuc, ℤ-discrete, ◌-ℤ◌, length, any, All, has, Text, Text-discrete, subst, ==_eq,
}
use nft_okboy_fleet.Auth.Totp.{
  byte_at, truncated, zero_padded, hotp, to_uint64, big_endian, try_window, window, b32decode,
  verify_totp_counter,
}

-- A counter at most one step from the current one, `k`. Before the second step, -1 is one of them.
abbrev pub Near : ℕ → ℤ → Type 0
Near k (pos n) = (k ≤ n + 1) × (n ≤ k + 1)
Near k (negsuc n) = (k ≡ 0) × (n ≡ 0)

abbrev around : ℕ → List ℤ
around k = (pos k -ℤ pos 1) ∷ pos k ∷ pos (k + 1) ∷ []

around-Near : (k : ℕ) (c : ℤ) → has c (around k) ≡ true → Near k c
around-Near zero (pos n) h = ground (arith, h)
around-Near zero (negsuc n) h = ground (arith, h)
around-Near (suc k) (pos n) h = ground (arith, h)
around-Near (suc k) (negsuc n) h = absurd (ground (arith, h))

Near-around : (k : ℕ) (c : ℤ) → Near k c → has c (around k) ≡ true
Near-around zero (pos n) h = ground (arith, h)
Near-around zero (negsuc n) h = ground (arith, h)
Near-around (suc k) (pos n) h = ground (arith, h)
Near-around (suc k) (negsuc n) h = absurd (ground (arith, h))

All-has {κ} : (P : ℤ → Type κ) (c : ℤ) (xs : List ℤ) → All P xs → has c xs ≡ true → P c
All-has P c [] all h = absurd (ground (arith, h))
All-has P c (x ∷ xs) all h = elim (Bool-cases (c == x)) [
  | inl same ↦ subst P (sym (==_eq c x same)) all.0
  | inr other ↦ All-has P c xs all.1 (ground (arith, h, other))
]

-- The number that a text of decimal digits spells.
abbrev pub decimal : ℕ → Text → ℕ
decimal n [] = n
decimal n (c ∷ s) = decimal (n * 10 + (c - 48)) s

-- The four bytes at an index as a number, the highest first.
abbrev pub word_at : Text → ℕ → ℕ
word_at sum i =
    ((byte_at sum i * 256 + byte_at sum (i + 1)) * 256 + byte_at sum (i + 2)) * 256
    + byte_at sum (i + 3)

-- RFC 4226, 5.3: six digits, which spell the low 31 bits of the word at the offset in the low four bits
-- of the last byte, modulo 10 ^ 6.
abbrev pub IsCode : Text → Text → Type 0
IsCode sum code =
    (length code ≡ 6)
    × (decimal 0 code ≡ (word_at sum (byte_at sum (length sum - 1) % 16) % 2147483648) % 1000000)

byte_bound : (sum : Text) (i : ℕ) → All (λ b. b < 256) sum → byte_at sum i < 256
unfolding byte_at
byte_bound [] i h = omega arith
byte_bound (b ∷ sum) zero h = h.0
byte_bound (b ∷ sum) (suc i) h = byte_bound sum i h.1

mask_lem :
    (a b c d : ℕ)
    → a < 256
    → b < 256
    → c < 256
    → d < 256
    → (a % 128) * 2 ^ 24 + b * 2 ^ 16 + c * 2 ^ 8 + d
      ≡ (((a * 256 + b) * 256 + c) * 256 + d) % 2147483648
mask_lem a b c d ha hb hc hd = omega arith

truncated_lem :
    (sum : Text)
    → All (λ b. b < 256) sum
    → truncated sum ≡ word_at sum (byte_at sum (length sum - 1) % 16) % 2147483648
unfolding truncated
truncated_lem sum h =
    let i = byte_at sum (length sum - 1) % 16 in
    mask_lem (byte_at sum i) (byte_at sum (i + 1)) (byte_at sum (i + 2)) (byte_at sum (i + 3))
      (byte_bound sum i h) (byte_bound sum (i + 1) h) (byte_bound sum (i + 2) h)
      (byte_bound sum (i + 3) h)

six_digits : (n : ℕ) → (length (zero_padded 6 n) ≡ 6) × (decimal 0 (zero_padded 6 n) ≡ n % 1000000)
unfolding zero_padded
six_digits n = (refl, omega arith)

module _ (hmac_sha1 : Text → Text → Text) (decode : Text → Option Text)
    (upper trim : Text → Text) where
  abbrev pub code_at : Text → ℤ → Text
  code_at secret c =
      hotp hmac_sha1 decode upper trim (b32decode hmac_sha1 decode upper trim secret) (to_uint64 c)

  hotp-IsCode :
      (key : Text) (counter : ℕ)
      → All (λ b. b < 256) (hmac_sha1 key (big_endian 8 counter))
      → IsCode (hmac_sha1 key (big_endian 8 counter)) (hotp hmac_sha1 decode upper trim key counter)
  unfolding hotp
  hotp-IsCode key counter bytes =
      let sum = hmac_sha1 key (big_endian 8 counter) in
      let (len, value) = six_digits (truncated sum % 1000000) in
      (len, value ∙ trimmed (truncated sum) _ (truncated_lem sum bytes))
    where
      trimmed : (a b : ℕ) → a ≡ b → (a % 1000000) % 1000000 ≡ b % 1000000
      trimmed a b h = omega (arith, h)

  try_window_sound :
      (key code : Text) (cs : List ℤ) (c : ℤ)
      → try_window hmac_sha1 decode upper trim key code cs ≡ some c
      → (has c cs ≡ true) × (hotp hmac_sha1 decode upper trim key (to_uint64 c) ≡ code)
  unfolding try_window has any
  try_window_sound key code [] c h = ground (arith, h)
  try_window_sound key code (x ∷ cs) c h =
      elim (Bool-cases (hotp hmac_sha1 decode upper trim key (to_uint64 x) == code)) [
        | inl p ↦ (ground (arith, h, p), ground (arith, h, p))
        | inr p ↦
            let (m, e) = try_window_sound key code cs c (ground (arith, h, p)) in
            (ground (arith, m), e)
      ]

  try_window_complete :
      (key code : Text) (cs : List ℤ)
      → try_window hmac_sha1 decode upper trim key code cs ≡ none
      → All (λ c. hotp hmac_sha1 decode upper trim key (to_uint64 c) ≢ code) cs
  unfolding try_window All
  try_window_complete key code [] h = tt
  try_window_complete key code (x ∷ cs) h =
      elim (Bool-cases (hotp hmac_sha1 decode upper trim key (to_uint64 x) == code)) [
        | inl p ↦ ground (arith, h, p)
        | inr p ↦ (ground (arith, p), try_window_complete key code cs (ground (arith, h, p)))
      ]

  pub verify_totp_counter_sound :
      (secret code : Text) (t : ℕ) (c : ℤ)
      → ((key message : Text) → All (λ b. b < 256) (hmac_sha1 key message))
      → verify_totp_counter hmac_sha1 decode upper trim secret code t ≡ some c
      → Near (t / 30) c
        × IsCode
            (hmac_sha1 (b32decode hmac_sha1 decode upper trim secret) (big_endian 8 (to_uint64 c)))
            (trim code)
  unfolding verify_totp_counter window
  verify_totp_counter_sound secret code t c bytes h =
      let key = b32decode hmac_sha1 decode upper trim secret in
      let (there, same) =
        try_window_sound key (trim code) (around (t / 30)) c (ground (arith, h)) in
      (
        around-Near (t / 30) c there,
        subst (IsCode (hmac_sha1 key (big_endian 8 (to_uint64 c)))) same
            (hotp-IsCode key (to_uint64 c) (bytes key (big_endian 8 (to_uint64 c)))),
      )

  -- When VerifyTOTPCounter answers nil for a secret and a code that are not empty, no counter at most
  -- one step of 30 seconds from the current one has the trimmed code.
  pub verify_totp_counter_complete :
      (secret code : Text) (t : ℕ) (c : ℤ)
      → secret ≢ []
      → code ≢ []
      → verify_totp_counter hmac_sha1 decode upper trim secret code t ≡ none
      → Near (t / 30) c
      → code_at secret c ≢ trim code
  unfolding verify_totp_counter window
  verify_totp_counter_complete secret code t c has_secret has_code h near =
      let key = b32decode hmac_sha1 decode upper trim secret in
      All-has (λ x. hotp hmac_sha1 decode upper trim key (to_uint64 x) ≢ trim code) c
        (around (t / 30))
        (try_window_complete key (trim code) (around (t / 30)) (ground (arith, h)))
        (Near-around (t / 30) c near)
