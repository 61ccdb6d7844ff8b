-- ===== src/Server/Totp/Gate.antt =====
-- The consumption of TOTP codes and the gate of sensitive operations.
use nft_okboy_fleet.Prelude.{
  ◌≡◌, refl, ap, ◌∙◌, ◌≢◌, inl, inr, Bool, true, false, Option, some, List, [], ◌∷◌, arith, ◌==◌,
  nat_discrete, Bool-discrete, Bool-cases, Option-cases, ℤ, pos, negsuc, ℤ-discrete, pos_part,
  count, Text, Text-discrete,
}
use nft_okboy_fleet.Auth.Totp.{verify_totp_counter}
use nft_okboy_fleet.Db.{Db, User, ok, query, update}
use nft_okboy_fleet.Server.Handler.{
  Handler, Library, next, continue, pure, internal, ok_or_500, ◌>>=◌, quietly, ◌>>◌, require,
  totp_required,
}
use nft_okboy_fleet.Server.Totp.{
  Checked, consume_matched, consume_totp, secret_of, totp_attempt, settle_check, totp_failed,
  totp_locked, step_up, code_or,
}
use nft_okboy_fleet.Db.Users.{is_fresh, consume_totp_counter}
use nft_okboy_fleet.Firewall.{FirewallBackend}
use nft_okboy_fleet.Server.{Config, World, Request}
use nft_okboy_fleet.Server.Handler.Steps.{bind_next, require_next}
use Prim.Native.String.{String}

abbrev advance : ℤ → User → User
advance counter u = record u { totp_last_counter = pos_part counter }

not_fresh : (id counter : ℤ) (u : User) → is_fresh id counter (advance counter u) ≡ false
not_fresh id (pos n) u = ground (arith)
not_fresh id (negsuc n) u = ground (arith)

-- After an UPDATE that makes its own test fail, no row passes the test.
count-update {ℓ} :
    {A : Type ℓ} (p : A → Bool) (f : A → A)
    → ((x : A) → p (f x) ≡ false)
    → (xs : List A) → count p (update p f xs) ≡ 0
count-update p f out [] = refl
count-update p f out (x ∷ xs) = elim (Bool-cases (p x)) [
  | inl h ↦ let done = out x in let rest = count-update p f out xs in ground (arith, h, done, rest)
  | inr h ↦ let rest = count-update p f out xs in ground (arith, h, rest)
]

-- Once ConsumeTOTPCounter has consumed a counter, it does not consume that counter again for the
-- same account.
pub consume_totp_counter_once :
    (id counter : ℤ) (d : Db)
    → (consume_totp_counter id counter d).0 ≡ ok true
    → (consume_totp_counter id counter (consume_totp_counter id counter d).1).0 ≢ ok true
unfolding consume_totp_counter query
consume_totp_counter_once id counter d h again =
    let none_left =
      count-update (is_fresh id counter) (advance counter) (not_fresh id counter) d.users in
    ground (arith, h, again, none_left)

module _ (lib : Library) (cfg : Config) (be : FirewallBackend) where
  abbrev matched : User → Text → World be → Option ℤ
  matched user code w =
      verify_totp_counter lib.hmac_sha1 lib.decode lib.upper lib.trim (secret_of user.totp_secret)
        code w.db.now

  consume_proven :
      (user : User) (code : Text) (w : World be) (c : Checked)
      → cfg.totp_replay_protection ≡ true
      → (consume_totp lib cfg be user code w).0 ≡ next c
      → c.valid ≡ true
      → (counter : ℤ) × (matched user code w ≡ some counter)
        × ((consume_totp_counter user.id counter w.db).0 ≡ ok true)
  unfolding consume_totp consume_matched pure internal ok_or_500 ◌>>=◌ continue
  consume_proven user code w c on h valid = elim (Option-cases (matched user code w)) [
    | inl m ↦ ground (arith, on, h, valid, m)
    | inr (counter, m) ↦ (counter, m, ground (arith, on, h, valid, m))
  ]

  settle_true :
      (r : Request) (user : User) (action : String) (c : Checked) (w : World be)
      → (settle_check lib cfg be r user action c w).0 ≡ next true
      → c.valid ≡ true
  unfolding settle_check pure totp_failed quietly ◌>>=◌ ◌>>◌ continue
  settle_true r user action c w h = ground (arith, h)

  attempt_true :
      (r : Request) (user : User) (code : Text) (action : String) (verify : Handler be Checked)
      (w : World be)
      → (totp_attempt lib cfg be r user code action verify w).0 ≡ next true
      → (c : Checked) × ((verify (totp_locked lib cfg be user w).1).0 ≡ next c) × (c.valid ≡ true)
  unfolding totp_attempt pure ◌>>◌
  attempt_true r user code action verify w h = elim (Bool-cases (lib.trim code == [])) [
    | inl p ↦ ground (arith, h, p)
    | inr p ↦
        let (c, checked, rest) =
          bind_next (totp_locked lib cfg be user >> verify) (settle_check lib cfg be r user action)
            w true (ground (arith, h, p)) in
        let (locked, passed, verified) =
          bind_next (totp_locked lib cfg be user) (λ _. verify) w c checked in
        (
          c,
          verified,
          settle_true r user action c ((totp_locked lib cfg be user >> verify) w).1 rest,
        )
  ]

  -- When the step-up gate lets a request for a user with TOTP pass under replay protection, the
  -- code of the request, which the header gives or else the body, matches a counter that the
  -- database then had not consumed yet.
  pub step_up_proven :
      (r : Request) (user : User) (body_code : Text) (w : World be)
      → user.totp_enabled ≡ true
      → cfg.totp_replay_protection ≡ true
      → (step_up lib cfg be r user body_code w).0 ≡ next tt
      → (counter : ℤ) × (matched user
            (code_or r.x_totp_code body_code)
            (totp_locked lib cfg be user w).1
          ≡ some counter)
        × ((consume_totp_counter user.id counter (totp_locked lib cfg be user w).1.db).0 ≡ ok true)
  unfolding step_up
  step_up_proven r user body_code w enabled on h =
      let code = code_or r.x_totp_code body_code in
      let (valid, tried, required) =
        bind_next
          (totp_attempt lib cfg be r user code "stepup_failed" (consume_totp lib cfg be user code))
          (λ valid. require valid (totp_required "Valid TOTP code required")) w tt
          (ground (arith, h, enabled)) in
      let done = require_next valid (totp_required "Valid TOTP code required") _ required in
      let (c, checked, valid_c) =
        attempt_true r user code "stepup_failed" (consume_totp lib cfg be user code) w
          (tried ∙ ap next done) in
      consume_proven user code (totp_locked lib cfg be user w).1 c on checked valid_c
