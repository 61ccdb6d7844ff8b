-- ===== src/Auth.antt =====
-- Authentication (internal/auth/auth.go): the HMAC header, the throttle and the admin check. HMAC-SHA256 in
-- hexadecimal is a parameter. The query of a failed attempt ignores its own failure, as the code
-- does. Unix times are below 2 ^ 63.
pub mod Totp
mod Tests
pub mod Freshness
pub mod Outcome
pub mod Roster
use nft_okboy_fleet.Prelude.{
  ℕ, zero, suc, ◌+◌, ◌-◌, ◌*◌, ◌/◌, ◌%◌, ◌^◌, ◌≤◌, ◌<◌, ◌≡◌, refl, sym, ap, ◌∙◌, ◌≢◌, ◌↔◌, ◌⊎◌, inl,
  inr, Bool, true, false, ◌&&◌, ◌||◌, not, Option, none, some, List, [], ◌∷◌, ◌++◌, map, arith, ltb,
  leb, if◌then◌else◌, ◌==◌, ==_refl, nat_discrete, Bool-discrete, Bool-cases, Option-cases, is_some,
  ℤ, pos, negsuc, ℤ-discrete, pos_part, neg_part, sub_ℕ, ◌-ℤ◌, ltℤ, leℤ, wrap64, neg64, length,
  count, keep, any, null, All, All-append, has, Text, Text-discrete, text, has_prefix, strip_prefix,
  cut, count_ext, count-keep, count-le, count_mono, count-append,
}
use nft_okboy_fleet.Db.{
  User, Db, Result, ok, err, Reason, bad_header, malformed_payload, invalid_timestamp,
  signature_expired, unknown_user, invalid_signature, admin_required,
}
use nft_okboy_fleet.Db.Users.{get_user_by_username}
use nft_okboy_fleet.Db.Logs.{record_failed_attempt, count_recent_failed_attempts}

-- The messages of the callers: those of failed attempts, and the one that hides whether the user
-- exists.
pub data Message : Type 0 where
  reason : Reason → Message
  invalid_credentials too_many_attempts : Message

-- (username, "") or ("", errMsg)
pub data Verdict {ℓ} (A : Type ℓ) : Type ℓ where
  granted : A → Verdict A
  refused : Message → Verdict A

-- The fields of an Authorization header's payload, as strings.SplitN(payload, ":", 3) yields them.
unfoldable pub split_payload : Text → Option (Text × Text × Text)
split_payload payload = elim (cut b':' payload) [
  | none ↦ none
  | some (user, rest) ↦ elim (cut b':' rest) [
    | none ↦ none
    | some (ts, signature) ↦ some (user, ts, signature)
  ]
]

-- abs64
unfoldable pub abs64 : ℤ → ℤ
abs64 v = if ltℤ v (pos 0) then neg64 v else v

-- abs64(time.Now().Unix()-ts) > int64(ttl), in int64 arithmetic
unfoldable pub is_expired : ℕ → ℤ → ℕ → Bool
unfolding abs64
is_expired now ts ttl = ltℤ (pos ttl) (abs64 (wrap64 (pos now -ℤ ts)))

abbrev pub hmac_prefix : Text
hmac_prefix = text "HMAC-SHA256 "

-- Records the failed attempt, whatever comes of it, and answers.
unfoldable pub refuse {ℓ} :
    {A : Type ℓ} → Option Text → Text → Reason → Message → Db → Verdict A × Db
refuse username ip why message d = (refused message, (record_failed_attempt username ip why d).1)

-- `parse_int` is strconv.ParseInt(_, 10, 64); `hmac secret message` the hexadecimal HMAC-SHA256.
module _ (parse_int : Text → Option ℤ) (hmac : Text → Text → Text) where
  -- From the row of the user on. The dummy signature of an unknown user only takes time.
  unfoldable pub check_signature :
      Text → Text → Text → Text → Result (Option User) → Db → Verdict Text × Db
  unfolding refuse
  check_signature ip user ts signature (err e) d =
      refuse (some user) ip unknown_user invalid_credentials d
  check_signature ip user ts signature (ok none) d =
      refuse (some user) ip unknown_user invalid_credentials d
  check_signature ip user ts signature (ok (some row)) d =
      if signature == hmac row.secret (user ++ b':' ∷ ts)
      then (granted user, d)
      else refuse (some user) ip invalid_signature invalid_credentials d

  -- From the fields of the payload on.
  unfoldable pub check_fields : ℕ → Text → Text → Text → Text → Db → Verdict Text × Db
  unfolding check_signature
  check_fields ttl ip user ts signature d = elim (parse_int ts) [
    | none ↦ refuse (some user) ip invalid_timestamp (reason invalid_timestamp) d
    | some t ↦
        if is_expired d.now t ttl
        then refuse (some user) ip signature_expired (reason signature_expired) d
        else (let (row, d') = get_user_by_username user d in
            check_signature ip user ts signature row d')
  ]

  unfoldable pub verify_hmac : Text → ℕ → Text → Db → Verdict Text × Db
  unfolding check_fields
  verify_hmac header ttl ip d =
      if not (has_prefix header hmac_prefix)
      then refuse none ip bad_header (reason bad_header) d
      else (elim (split_payload (strip_prefix header hmac_prefix)) [
        | none ↦ refuse none ip malformed_payload (reason malformed_payload) d
        | some (user, ts, signature) ↦ check_fields ttl ip user ts signature d
      ])

  -- IsAdmin, on what its query answers
  abbrev pub admin_row : Result (Option User) → Bool
  admin_row (err e) = false
  admin_row (ok none) = false
  admin_row (ok (some u)) = u.is_admin

  unfoldable pub is_admin : Text → Db → Bool × Db
  is_admin username d = let (row, d') = get_user_by_username username d in (admin_row row, d')

  -- The end of RequireAdmin: an admin's row, or a nil row that vanished meanwhile.
  abbrev pub admin_user : Result (Option User) → Verdict (Option User)
  admin_user (err e) = refused (reason admin_required)
  admin_user (ok row) = granted row

  unfoldable pub require_admin : Text → ℕ → Text → Db → Verdict (Option User) × Db
  unfolding verify_hmac is_admin
  require_admin header ttl ip d =
      let (who, d₁) = verify_hmac header ttl ip d in
      elim who [
        | refused m ↦ (refused m, d₁)
        | granted username ↦
            let (admin, d₂) = is_admin username d₁ in
            if not admin
            then refuse (some username) ip admin_required (reason admin_required) d₂
            else (let (row, d₃) = get_user_by_username username d₂ in (admin_user row, d₃))
      ]

-- CheckIPThrottle: true when the request is refused
abbrev pub over_limit : ℕ → Result ℕ → Bool
over_limit max_failures (err e) = false
over_limit max_failures (ok n) = leb max_failures n

unfoldable pub check_ip_throttle : Text → ℕ → ℕ → Db → Bool × Db
unfolding nat_discrete
check_ip_throttle ip max_failures window d =
    if (max_failures == 0) || (ip == [])
    then (false, d)
    else (let (n, d') = count_recent_failed_attempts ip window d in (over_limit max_failures n, d'))
