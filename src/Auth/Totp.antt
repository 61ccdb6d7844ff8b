-- ===== src/Auth/Totp.antt =====
-- TOTP step-up codes (internal/auth/totp.go). HMAC-SHA1, base32 and Unicode's upper case and white space are
-- parameters. Times are Unix seconds from 1970 on; a counter is an int64, read as uint64 by HOTP.
pub mod Window
use nft_okboy_fleet.Prelude.{
  ℕ, zero, suc, ◌+◌, ◌-◌, ◌*◌, ◌/◌, ◌%◌, ◌^◌, ◌≡◌, ◌≢◌, inl, inr, Bool, true, ◌||◌, Option, none,
  some, List, [], ◌∷◌, ◌++◌, arith, if◌then◌else◌, ◌==◌, nat_discrete, Bool-discrete, Bool-cases,
  is_some, ℤ, pos, negsuc, ℤ-discrete, ◌-ℤ◌, length, any, All, has, Text, Text-discrete,
}

abbrev pub totp_step : ℕ
totp_step = 30

abbrev pub totp_digits : ℕ
totp_digits = 6

-- uint64(n) of an int64
unfoldable pub to_uint64 : ℤ → ℕ
to_uint64 (pos n) = n % 2 ^ 64
to_uint64 (negsuc n) = 2 ^ 64 - 1 - n % 2 ^ 64

-- The low `width` bytes of a number, the highest first: binary.BigEndian.PutUint64 at width 8.
unfoldable pub big_endian : ℕ → ℕ → Text
big_endian zero n = []
big_endian (suc width) n = big_endian width (n / 256) ++ (n % 256) ∷ []

-- "%0*d" of a number below 10 ^ width
unfoldable pub zero_padded : ℕ → ℕ → Text
zero_padded zero n = []
zero_padded (suc width) n = zero_padded width (n / 10) ++ (48 + n % 10) ∷ []

-- sum[i]; an SHA-1 sum has 20 bytes, and every index below is at most 19.
unfoldable pub byte_at : Text → ℕ → ℕ
byte_at [] i = 0
byte_at (x ∷ xs) zero = x
byte_at (x ∷ xs) (suc i) = byte_at xs i

unfoldable pub pad : ℕ → Text
pad zero = []
pad (suc n) = b'=' ∷ pad n

-- The dynamic truncation of an HMAC sum to 31 bits. Masks and shifts are remainders and products.
unfoldable pub truncated : Text → ℕ
unfolding byte_at
truncated sum =
    let offset = byte_at sum (length sum - 1) % 16 in
    (byte_at sum offset % 128) * 2 ^ 24
    + byte_at sum (offset + 1) * 2 ^ 16
    + byte_at sum (offset + 2) * 2 ^ 8
    + byte_at sum (offset + 3)

-- `hmac_sha1 key message` is the sum, `decode` base32.StdEncoding.DecodeString with an error as
-- `none`, `upper` strings.ToUpper and `trim` strings.TrimSpace.
module _ (hmac_sha1 : Text → Text → Text) (decode : Text → Option Text)
    (upper trim : Text → Text) where
  unfoldable pub b32decode : Text → Text
  b32decode secret =
      let s = upper secret in
      elim (decode (s ++ pad ((8 - length s % 8) % 8))) [ none ↦ [] | some key ↦ key ]

  unfoldable pub hotp : Text → ℕ → Text
  unfolding truncated big_endian zero_padded
  hotp key counter =
      zero_padded totp_digits (truncated (hmac_sha1 key (big_endian 8 counter)) % 10 ^ totp_digits)

  unfoldable pub totp_now : Text → ℕ → Text
  unfolding hotp b32decode
  totp_now secret t = hotp (b32decode secret) (to_uint64 (pos (t / totp_step)))

  -- The loop over the window: the first candidate whose code is the one given.
  unfoldable pub try_window : Text → Text → List ℤ → Option ℤ
  try_window key code [] = none
  try_window key code (candidate ∷ rest) =
      if hotp key (to_uint64 candidate) == code then some candidate else try_window key code rest

  -- The counters within totpWindow of the current one, in the loop's order.
  unfoldable pub window : ℕ → List ℤ
  window t =
      let counter = t / totp_step in (pos counter -ℤ pos 1) ∷ pos counter ∷ pos (counter + 1) ∷ []

  unfoldable pub verify_totp_counter : Text → Text → ℕ → Option ℤ
  unfolding try_window window b32decode
  verify_totp_counter secret code t =
      if (secret == []) || (code == [])
      then none
      else try_window (b32decode secret) (trim code) (window t)

  unfoldable pub verify_totp : Text → Text → ℕ → Bool
  unfolding verify_totp_counter
  verify_totp secret code t = is_some (verify_totp_counter secret code t)
