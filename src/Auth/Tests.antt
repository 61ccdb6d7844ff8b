-- ===== src/Auth/Tests.antt =====
-- The authentication theorems at a concrete header, secret and code.
use nft_okboy_fleet.Prelude.{
  ◌<◌, ◌/◌, Text-discrete, ◌-◌, ◌^◌, ◌≡◌, refl, ◌≢◌, true, false, Option, none, some, [], ◌∷◌,
  arith, ltb, nat_discrete, Bool-discrete, ℤ, pos, negsuc, ℤ-discrete, All, Text, Text-discrete,
  text, has_prefix, strip_prefix, cut,
}
use nft_okboy_fleet.Db.{User, Db}
use nft_okboy_fleet.Db.Users.{get_user_by_username}
use nft_okboy_fleet.Auth.{verify_hmac, is_expired, split_payload}
use nft_okboy_fleet.Auth.Outcome.{Proves, verify_hmac_sound}
use nft_okboy_fleet.Auth.Freshness.{distance, is_expired_iff, is_expired_overflow}
use nft_okboy_fleet.Auth.Totp.{b32decode, to_uint64, big_endian, verify_totp_counter, hotp}
use nft_okboy_fleet.Auth.Totp.Window.{
  Near, IsCode, code_at, verify_totp_counter_sound, verify_totp_counter_complete,
}

-- Stand-ins: every timestamp is 1000, a signature is the secret, every code's sum is twenty zeros.
abbrev parse_int : Text → Option ℤ
parse_int ts = some (pos 1000)

abbrev hmac : Text → Text → Text
hmac secret message = secret

abbrev sum : Text → Text → Text
sum key message = 0 ∷ 0 ∷ 0 ∷ 0 ∷ 0 ∷ []

abbrev decode : Text → Option Text
decode s = some s

abbrev same : Text → Text
same s = s

abbrev alice : User
alice = record {
  id = pos 1;
  username = text "alice";
  secret = text "s";
  is_admin = false;
  current_ip = none;
  last_knock = none;
  totp_secret = none;
  totp_enabled = false;
  totp_last_counter = 0;
}

abbrev one_user : Db
one_user = record {
  users = alice ∷ [];
  groups = [];
  memberships = [];
  failed_attempts = [];
  operation_log = [];
  audit_log = [];
  nodes = [];
  group_targets = [];
  next_user = 2;
  next_group = 1;
  ports_unique = true;
  next_node = 1;
  now = 1010;
  faults = [];
}

abbrev header : Text
header = text "HMAC-SHA256 alice:1000:s"

verify_hmac_sound_example : Proves parse_int hmac header 30 one_user (text "alice")
unfolding verify_hmac get_user_by_username has_prefix split_payload cut strip_prefix is_expired
    Text-discrete
verify_hmac_sound_example =
    verify_hmac_sound parse_int hmac header 30 [] one_user (text "alice") refl

is_expired_iff_example : is_expired 1010 (pos 1000) 30 ≡ ltb 30 (distance 1010 (pos 1000))
is_expired_iff_example = is_expired_iff 1010 30 (pos 1000) (omega arith) (omega arith) (omega arith)

is_expired_overflow_example : is_expired 1010 (negsuc (2 ^ 63 - 1011)) 30 ≡ false
is_expired_overflow_example =
    is_expired_overflow 1010 30 (negsuc (2 ^ 63 - 1011)) (omega arith) (omega arith) refl

sum-bytes : (key message : Text) → All (λ b. b < 256) (sum key message)
sum-bytes key message =
    (omega arith, (omega arith, (omega arith, (omega arith, (omega arith, tt)))))

verify_totp_counter_sound_example :
    Near (1000 / 30) (pos 32)
    × IsCode
        (sum (b32decode sum decode same same (text "abc")) (big_endian 8 (to_uint64 (pos 32))))
        (text "000000")
unfolding verify_totp_counter Text-discrete hotp
verify_totp_counter_sound_example =
    verify_totp_counter_sound sum decode same same (text "abc") (text "000000") 1000 (pos 32)
      sum-bytes refl

verify_totp_counter_complete_example : code_at sum decode same same (text "abc") (pos 34) ≢ text "1"
unfolding verify_totp_counter Text-discrete hotp
verify_totp_counter_complete_example =
    verify_totp_counter_complete sum decode same same (text "abc") (text "1") 1000 (pos 34)
      (ground arith) (ground arith) refl (omega arith, omega arith)
