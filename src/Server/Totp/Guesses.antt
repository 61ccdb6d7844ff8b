-- ===== src/Server/Totp/Guesses.antt =====
-- How many codes for one account are compared (internal/server/totp.go: totpAttempt under its cap).
use nft_okboy_fleet.Prelude.{
  ℕ, ◌+◌, ◌≤◌, ◌<◌, ◌≡◌, refl, ap, ◌∙◌, inl, inr, Bool, true, false, Option, none, some, List, [],
  ◌∷◌, ◌++◌, arith, leb, if◌then◌else◌, ◌==◌, ==_refl, nat_discrete, Bool-discrete, Bool-cases, ℤ,
  ℤ-discrete, count, Text, Text-discrete, count-append,
}
use nft_okboy_fleet.Db.{Db, User, FailedAttempt, ok, query, Reason-discrete, invalid_totp}
use nft_okboy_fleet.Db.Users.{consume_totp_counter}
use nft_okboy_fleet.Db.Logs.{
  is_failure, is_recent, log_audit, count_recent_user_failures, record_failed_attempt,
}
use nft_okboy_fleet.Firewall.{FirewallBackend}
use nft_okboy_fleet.Server.{Config, World, Request, request_ip}
use nft_okboy_fleet.Server.Handler.{
  failure, answered, next, Response, Step, Handler, Library, attempt, continue, pure, internal,
  ok_or_500, ◌>>=◌, ◌>>◌, quietly, require,
}
use nft_okboy_fleet.Server.Totp.{
  over_cap, Checked, consume_matched, consume_totp, totp_attempt, settle_check, totp_failed,
  totp_locked,
}
use Prim.Native.String.{String}

-- The failed TOTP checks of the account that are recent.
abbrev pub failures : Config → User → Db → ℕ
failures cfg user d =
    count (is_failure d user.username invalid_totp cfg.throttle_window) d.failed_attempts

-- The database as a check that finds its code leaves it: no failure of SQLite is to come, and the
-- failed attempts and the clock are as they were.
abbrev Same : Db → Db → Type 0
Same d d' = (d'.failed_attempts ≡ d.failed_attempts) × (d'.now ≡ d.now) × (d'.faults ≡ [])

failures-Same :
    (cfg : Config) (user : User) (d d' : Db)
    → Same d d'
    → failures cfg user d' ≡ failures cfg user d
failures-Same cfg user d d' (rows, now, _) = rw (rows, now) refl

consume_counter-Same :
    (id counter : ℤ) (d : Db)
    → d.faults ≡ []
    → (b : Bool) × ((consume_totp_counter id counter d).0 ≡ ok b)
      × Same d (consume_totp_counter id counter d).1
unfolding consume_totp_counter query
consume_counter-Same id counter d sound = rw sound (_, refl, (refl, refl, refl))

module _ (lib : Library) (cfg : Config) (be : FirewallBackend) where
  matched-Same :
      (user : User) (m : Option ℤ) (w : World be)
      → w.db.faults ≡ []
      → (c : Checked) × ((consume_matched lib cfg be user m w).0 ≡ next c)
        × Same w.db (consume_matched lib cfg be user m w).1.db
  unfolding consume_matched pure internal ok_or_500 ◌>>=◌ continue
  matched-Same user none w sound = (_, refl, (refl, refl, sound))
  matched-Same user (some m) w sound =
      let (b, done, same) = consume_counter-Same user.id m w.db sound in
      elim (Bool-cases cfg.totp_replay_protection) [
        | inr off ↦ rw off (_, refl, (refl, refl, sound))
        | inl on ↦ rw (on, done) (_, refl, same)
      ]

  consume-Same :
      (user : User) (code : Text) (w : World be)
      → w.db.faults ≡ []
      → (c : Checked) × ((consume_totp lib cfg be user code w).0 ≡ next c)
        × Same w.db (consume_totp lib cfg be user code w).1.db
  unfolding consume_totp
  consume-Same user code w sound = matched-Same user _ w sound

  -- The row that totpFailed adds to the failed attempts.
  abbrev failed_row : Request → User → Db → FailedAttempt
  failed_row r user d = record {
    username = some user.username;
    ip = request_ip lib.split_host_port lib.canonical_ip lib.trim cfg r;
    reason = invalid_totp;
    created_at = d.now;
  }

  -- A failed check is one more row.
  abbrev Failed : Request → User → Db → Db → Type 0
  Failed r user d d' =
      (d'.failed_attempts ≡ d.failed_attempts ++ failed_row r user d ∷ [])
      × (d'.now ≡ d.now)
      × (d'.faults ≡ [])

  failed_lem :
      (r : Request) (user : User) (action : String) (replayed : Bool) (w : World be)
      → w.db.faults ≡ []
      → ((totp_failed lib cfg be r user action replayed w).0 ≡ next tt)
        × Failed r user w.db (totp_failed lib cfg be r user action replayed w).1.db
  unfolding totp_failed quietly log_audit record_failed_attempt query ◌>>=◌ ◌>>◌ continue
  failed_lem r user action replayed w sound = rw sound (refl, (refl, refl, refl))

  recent_now : (now window : ℕ) → is_recent now window now ≡ true
  recent_now now window = ground arith

  failures-Failed :
      (r : Request) (user : User) (d d' : Db)
      → Failed r user d d'
      → failures cfg user d' ≡ failures cfg user d + 1
  failures-Failed r user d d' (rows, now, _) =
      rw
        (
          rows,
          now,
          count-append (is_failure d user.username invalid_totp cfg.throttle_window)
              d.failed_attempts (failed_row r user d ∷ []),
        )
        (ground (
          arith,
          ==_refl user.username,
          ==_refl invalid_totp,
          recent_now d.now cfg.throttle_window,
        ))

  abbrev too_many : Response
  too_many = failure 429 "Too many failed TOTP codes; try again later"

  locked_lem :
      (user : User) (w : World be)
      → w.db.faults ≡ []
      → 0 < cfg.throttle_max_failures
      → totp_locked lib cfg be user w ≡ (
          if leb cfg.throttle_max_failures (failures cfg user w.db)
          then (answered too_many, w)
          else (next tt, w))
  unfolding totp_locked over_cap attempt require count_recent_user_failures query ◌>>=◌ continue
  locked_lem user w sound positive =
      elim (Bool-cases (leb cfg.throttle_max_failures (failures cfg user w.db))) [
        | inl full ↦ ground (arith, sound, positive, full)
        | inr free ↦ ground (arith, sound, positive, free)
      ]

  abbrev pub wrong : Step Bool → ℕ
  wrong (next false) = 1
  wrong (next true) = 0
  wrong (answered r) = 0

  -- A check whose code is consumed when it matches, as step-up, re-enrollment and disabling make it.
  abbrev pub check : User → Request → Text → String → World be → Step Bool × World be
  check user r code action =
      totp_attempt lib cfg be r user code action (consume_totp lib cfg be user code)

  -- 1 for a code that was compared and is wrong; a blank code is no guess.
  abbrev pub compared : Text → Step Bool → ℕ
  compared code s = if lib.trim code == [] then 0 else wrong s

  -- The wrong codes that are compared in a sequence of checks for one account.
  abbrev pub guesses : User → List (Request × Text × String) → World be → ℕ
  guesses user [] w = 0
  guesses user ((r, code, action) ∷ rest) w =
      compared code (check user r code action w).0
      + guesses user rest (check user r code action w).1

  -- What one check does to the count of failures, `n` of them being added.
  abbrev Adds : User → World be → World be → ℕ → Type 0
  Adds user w w' n =
      (w'.db.faults ≡ [])
      × (failures cfg user w'.db ≡ failures cfg user w.db + n)
      × (failures cfg user w.db ≤ cfg.throttle_max_failures
          → failures cfg user w.db + n ≤ cfg.throttle_max_failures)

  then_false :
      (m : Handler be (Unit {0})) (w : World be)
      → (m w).0 ≡ next tt
      → (m >> pure false) w ≡ (next false, (m w).1)
  unfolding ◌>>=◌ ◌>>◌ continue pure
  then_false m w h = rw h refl

  settle_bad :
      (user : User) (r : Request) (action : String) (c : Checked) (w : World be)
      → c.valid ≡ false
      → (totp_failed lib cfg be r user action c.replayed w).0 ≡ next tt
      → settle_check lib cfg be r user action c w
        ≡ (next false, (totp_failed lib cfg be r user action c.replayed w).1)
  unfolding settle_check
  settle_bad user r action c w bad failed =
      rw bad (then_false (totp_failed lib cfg be r user action c.replayed) w failed)

  settled_lem :
      (user : User) (r : Request) (action : String) (c : Checked) (w w' : World be)
      → Same w.db w'.db
      → failures cfg user w.db < cfg.throttle_max_failures
      → Adds user w
          (settle_check lib cfg be r user action c w').1
          (wrong (settle_check lib cfg be r user action c w').0)
  unfolding settle_check pure ◌>>=◌ ◌>>◌ continue
  settled_lem user r action c w w' same free = elim (Bool-cases c.valid) [
    | inl good ↦
        rw good
          (same.2, omega (arith, failures-Same cfg user w.db w'.db same), λ h. omega (arith, h))
    | inr bad ↦
        let (failed, row) = failed_lem r user action c.replayed w' same.2 in
        rw (settle_bad user r action c w' bad failed) (
          row.2,
          failures-Failed r user w'.db (totp_failed lib cfg be r user action c.replayed w').1.db row
              ∙ ap (λ n. n + 1) (failures-Same cfg user w.db w'.db same),
          λ h. omega (arith, free),
        )
  ]

  check-Adds :
      (user : User) (r : Request) (code : Text) (action : String) (w : World be)
      → w.db.faults ≡ []
      → 0 < cfg.throttle_max_failures
      → Adds user w (check user r code action w).1 (compared code (check user r code action w).0)
  unfolding totp_attempt pure ◌>>=◌ ◌>>◌ continue
  check-Adds user r code action w sound positive = elim (Bool-cases (lib.trim code == [])) [
    | inl blank ↦ rw blank (sound, omega arith, λ h. omega (arith, h))
    | inr typed ↦ elim (Bool-cases (leb cfg.throttle_max_failures (failures cfg user w.db))) [
      | inl full ↦
          rw (typed, locked_lem user w sound positive, full)
            (sound, omega arith, λ h. omega (arith, h))
      | inr free ↦
          let (c, checked, same) = consume-Same user code w sound in
          rw (typed, locked_lem user w sound positive, free, checked)
            (settled_lem user r action c w _ same (ground (arith, free)))
    ]
  ]

  pub guesses_capped :
      (user : User) (codes : List (Request × Text × String)) (w : World be)
      → w.db.faults ≡ []
      → 0 < cfg.throttle_max_failures
      → failures cfg user w.db ≤ cfg.throttle_max_failures
      → guesses user codes w + failures cfg user w.db ≤ cfg.throttle_max_failures
  guesses_capped user [] w sound positive under = omega (arith, under)
  guesses_capped user ((r, code, action) ∷ rest) w sound positive under =
      let (still, added, capped) = check-Adds user r code action w sound positive in
      let later =
        guesses_capped user rest (check user r code action w).1 still positive
          (omega (arith, added, capped under)) in
      omega (arith, added, later)
