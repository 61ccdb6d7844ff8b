-- ===== src/Server/Totp.antt =====
-- The TOTP step-up (internal/server/totp.go): the capped check, the gate of sensitive operations,
-- and the handlers of enrollment. totpMu makes each check one step on the state.
pub mod Gate
pub mod Guesses
use nft_okboy_fleet.Prelude.{
  ℕ, zero, suc, ◌+◌, ◌-◌, ◌*◌, ◌/◌, ◌%◌, ◌^◌, ◌≤◌, ◌<◌, ◌≡◌, refl, sym, ap, ◌∙◌, ◌≢◌, ◌↔◌, ◌⊎◌, inl,
  inr, Bool, true, false, ◌&&◌, ◌||◌, not, Option, none, some, List, [], ◌∷◌, ◌++◌, map, arith, ltb,
  leb, if◌then◌else◌, ◌==◌, ==_refl, nat_discrete, Bool-discrete, Bool-cases, Option-cases, is_some,
  ℤ, pos, negsuc, ℤ-discrete, pos_part, neg_part, sub_ℕ, ◌-ℤ◌, ltℤ, leℤ, wrap64, neg64, length,
  count, keep, any, null, All, All-append, has, Text, Text-discrete, text, has_prefix, strip_prefix,
  cut, count_ext, count-keep, count-le, count_mono, count-append,
}
use nft_okboy_fleet.Auth.{Message, Verdict, granted, refused, require_admin}
use nft_okboy_fleet.Auth.Totp.{verify_totp_counter, verify_totp}
use nft_okboy_fleet.Db.{Db, User, Result, ok, err, Query, invalid_totp}
use nft_okboy_fleet.Db.Users.{consume_totp_counter, set_totp_secret, enable_totp, disable_totp}
use nft_okboy_fleet.Db.Logs.{log_audit, count_recent_user_failures, record_failed_attempt}
use nft_okboy_fleet.Firewall.{FirewallBackend}
use nft_okboy_fleet.Server.{Config, Request, World, request_ip}
use nft_okboy_fleet.Server.Handler.{
  Library, Response, failure, unauthorized, admin_refused, totp_required, totp_enroll_required,
  done, Step, Handler, answered, next, ◌>>=◌, ◌>>◌, pure, answer, require, attempt, internal,
  quietly, found, judged,
}
use Prim.Native.String.{String}

-- What an endpoint's own check yields: (ok, replayed).
pub record Checked : Type 0 where
  pub valid : Bool
  pub replayed : Bool

unfoldable pub code_or : Text → Text → Text
code_or header body = if header == [] then body else header

abbrev pub secret_of : Option Text → Text
secret_of none = []
secret_of (some secret) = secret

module _ (lib : Library) (cfg : Config) (be : FirewallBackend) where
  -- totpLocked: the account is over its cap; an error of the count does not deny.
  unfoldable pub over_cap : Result ℕ → Bool
  over_cap (err e) = false
  over_cap (ok n) = leb cfg.throttle_max_failures n

  unfoldable pub totp_locked : User → Handler be (Unit {0})
  unfolding ◌>>=◌ attempt require over_cap
  totp_locked user =
      if cfg.throttle_max_failures == 0
      then pure tt
      else (attempt (count_recent_user_failures user.username invalid_totp cfg.throttle_window)
          >>= λ n.
              require (not (over_cap n))
                (failure 429 "Too many failed TOTP codes; try again later"))

  unfoldable pub totp_failed : Request → User → String → Bool → Handler be (Unit {0})
  unfolding ◌>>=◌ ◌>>◌ quietly
  totp_failed r user action replayed = do
    quietly (
        log_audit user.username action (user.username ∷ []) []
          (if replayed then some true else none))
    quietly (
        record_failed_attempt (some user.username)
          (request_ip lib.split_host_port lib.canonical_ip lib.trim cfg r) invalid_totp)

  unfoldable pub settle_check : Request → User → String → Checked → Handler be Bool
  unfolding ◌>>=◌ ◌>>◌ pure totp_failed
  settle_check r user action c =
      if c.valid then pure true else (totp_failed r user action c.replayed >> pure false)

  -- An empty code is not a guess.
  unfoldable pub totp_attempt :
      Request → User → Text → String → Handler be Checked → Handler be Bool
  unfolding ◌>>=◌ ◌>>◌ pure totp_locked settle_check
  totp_attempt r user code action verify =
      if lib.trim code == []
      then pure false
      else (totp_locked user >> verify >>= settle_check r user action)

  unfoldable pub consume_matched : User → Option ℤ → Handler be Checked
  unfolding ◌>>=◌ pure internal
  consume_matched user none = pure (record { valid = false; replayed = false })
  consume_matched user (some matched) =
      if not cfg.totp_replay_protection
      then pure (record { valid = true; replayed = false })
      else (internal (consume_totp_counter user.id matched) >>= λ consumed.
          pure (record { valid = consumed; replayed = not consumed }))

  unfoldable pub consume_totp : User → Text → Handler be Checked
  unfolding consume_matched
  consume_totp user code w =
      consume_matched user
        (verify_totp_counter lib.hmac_sha1 lib.decode lib.upper lib.trim
          (secret_of user.totp_secret) code w.db.now)
        w

  -- stepUp: the caller proceeds on `next`. `body_code` is the body's totp_code, "" without it.
  unfoldable pub step_up : Request → User → Text → Handler be (Unit {0})
  unfolding ◌>>=◌ require pure totp_attempt consume_totp code_or
  step_up r user body_code =
      if user.totp_enabled
      then (let code = code_or r.x_totp_code body_code in
          totp_attempt r user code "stepup_failed" (consume_totp user code) >>= λ valid.
          require valid (totp_required "Valid TOTP code required"))
      else require (not cfg.require_admin_totp)
          (totp_enroll_required "Admin TOTP enrollment required before this action")

  -- RequireAdmin; a nil row that vanished meanwhile makes the handlers panic, which answers nothing
  -- and is modelled as 500.
  unfoldable pub admin : Request → Handler be User
  unfolding ◌>>=◌ judged found
  admin r =
      judged admin_refused (
        require_admin lib.parse_int lib.hmac r.authorization cfg.signature_ttl
          (request_ip lib.split_host_port lib.canonical_ip lib.trim cfg r))
      >>= found (failure 500 "panic")

  -- The proof of possession that re-enrollment needs once TOTP is enabled.
  unfoldable pub reenroll_check : Request → User → Text → Handler be (Unit {0})
  unfolding ◌>>=◌ require pure totp_attempt consume_totp code_or
  reenroll_check r user body_code =
      if user.totp_enabled
      then (let code = code_or r.x_totp_code body_code in
          totp_attempt r user code "totp_reenroll_failed" (consume_totp user code) >>= λ valid.
          require valid (totp_required "Valid TOTP code required to re-enroll"))
      else pure tt

  -- `secret` is GenerateTOTPSecret's; the response that shows it is not modelled further.
  unfoldable pub totp_enroll : Request → Text → Text → Handler be Response
  unfolding ◌>>=◌ ◌>>◌ admin reenroll_check internal quietly pure
  totp_enroll r body_code secret = do
    user ← admin r
    reenroll_check r user body_code
    internal (set_totp_secret user.id secret)
    quietly (log_audit user.username "totp_enroll_start" (user.username ∷ []) [] none)
    pure (done [] [])

  unfoldable pub check_code : User → Text → Handler be Checked
  unfolding pure
  check_code user code w =
      pure
        (record {
          valid =
              verify_totp lib.hmac_sha1 lib.decode lib.upper lib.trim (secret_of user.totp_secret)
                code w.db.now;
          replayed = false;
        })
        w

  unfoldable pub totp_activate : Request → Text → Handler be Response
  unfolding ◌>>=◌ ◌>>◌ admin require totp_attempt check_code internal quietly pure
  totp_activate r code = do
    user ← admin r
    require (not (secret_of user.totp_secret == []))
        (failure 400 "No pending enrollment; call enroll first")
    valid ← totp_attempt r user code "totp_activate_failed" (check_code user code)
    require valid (failure 400 "Invalid code")
    internal (enable_totp user.id)
    quietly (log_audit user.username "totp_activate" (user.username ∷ []) [] none)
    pure (done [] [])

  unfoldable pub disable_check : Request → User → Text → Handler be (Unit {0})
  unfolding ◌>>=◌ require pure totp_attempt consume_totp
  disable_check r user code =
      if user.totp_enabled
      then (totp_attempt r user code "totp_disable_failed" (consume_totp user code) >>= λ valid.
          require valid (failure 403 "Valid TOTP code required to disable"))
      else pure tt

  unfoldable pub totp_disable : Request → Text → Handler be Response
  unfolding ◌>>=◌ ◌>>◌ admin disable_check internal quietly pure
  totp_disable r code = do
    user ← admin r
    disable_check r user code
    internal (disable_totp user.id)
    quietly (log_audit user.username "totp_disable" (user.username ∷ []) [] none)
    pure (done [] [])
