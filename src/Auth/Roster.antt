-- ===== src/Auth/Roster.antt =====
-- Authentication (internal/auth/auth.go) writes no user and no membership.
use nft_okboy_fleet.Prelude.{
  ℕ, ◌≡◌, refl, ap, ◌∙◌, inl, inr, Bool, true, false, not, Option, none, some, List, [], ◌∷◌, ◌++◌,
  arith, ◌==◌, nat_discrete, Bool-discrete, Bool-cases, Option-cases, ℤ, ℤ-discrete, Text,
  Text-discrete, has_prefix, strip_prefix,
}
use nft_okboy_fleet.Db.{User, Membership, Db, Reason, Result, ok, err, query}
use nft_okboy_fleet.Db.Users.{get_user_by_username}
use nft_okboy_fleet.Db.Logs.{record_failed_attempt}
use nft_okboy_fleet.Db.{signature_expired}
use nft_okboy_fleet.Auth.{
  reason, Verdict, refuse, check_signature, check_fields, verify_hmac, is_admin, split_payload,
  hmac_prefix, is_expired,
}

abbrev roster : Db → List User × List Membership
roster d = (d.users, d.memberships)

record_failed_attempt-roster :
    (username : Option Text) (ip : Text) (why : Reason) (d : Db)
    → roster (record_failed_attempt username ip why d).1 ≡ roster d
unfolding record_failed_attempt query
record_failed_attempt-roster username ip why d = by_faults d.faults
  where
    by_faults :
        (fs : List Bool)
        → roster (record_failed_attempt username ip why (record d { faults = fs })).1 ≡ roster d
    by_faults [] = refl
    by_faults (true ∷ fs) = refl
    by_faults (false ∷ fs) = refl

pub get_user_by_username-roster :
    (name : Text) (d : Db) → roster (get_user_by_username name d).1 ≡ roster d
unfolding get_user_by_username query
get_user_by_username-roster name d = by_faults d.faults
  where
    by_faults :
        (fs : List Bool)
        → roster (get_user_by_username name (record d { faults = fs })).1 ≡ roster d
    by_faults [] = refl
    by_faults (true ∷ fs) = refl
    by_faults (false ∷ fs) = refl

module _ (parse_int : Text → Option ℤ) (hmac : Text → Text → Text) where
  check_signature-roster :
      (ip user ts signature : Text) (row : Result (Option User)) (d : Db)
      → roster (check_signature parse_int hmac ip user ts signature row d).1 ≡ roster d
  unfolding check_signature refuse
  check_signature-roster ip user ts signature (err e) d = record_failed_attempt-roster _ ip _ d
  check_signature-roster ip user ts signature (ok none) d = record_failed_attempt-roster _ ip _ d
  check_signature-roster ip user ts signature (ok (some row)) d =
      elim (Bool-cases (signature == hmac row.secret (user ++ b':' ∷ ts))) [
        | inl e ↦ rw e refl
        | inr e ↦ rw e (record_failed_attempt-roster _ ip _ d)
      ]

  check_fields-roster :
      (ttl : ℕ) (ip user ts signature : Text) (d : Db)
      → roster (check_fields parse_int hmac ttl ip user ts signature d).1 ≡ roster d
  unfolding check_fields refuse
  check_fields-roster ttl ip user ts signature d = elim (Option-cases (parse_int ts)) [
    | inl e ↦ rw (check_fields, e) (record_failed_attempt-roster _ ip _ d)
    | inr (t, e) ↦ elim (Bool-cases (is_expired d.now t ttl)) [
      | inl late ↦ late_lem t e late
      | inr fresh ↦ fresh_lem t e fresh
    ]
  ]
    where
      after : Verdict Text × Db
      after = check_fields parse_int hmac ttl ip user ts signature d

      late_lem :
          (t : ℤ)
          → parse_int ts ≡ some t
          → is_expired d.now t ttl ≡ true
          → roster after.1 ≡ roster d
      late_lem t e late =
          let out : after ≡ refuse (some user) ip signature_expired (reason signature_expired) d =
            ground (arith, e, late) in
          ap (λ x. roster x.1) out ∙ record_failed_attempt-roster (some user) ip signature_expired d

      fresh_lem :
          (t : ℤ)
          → parse_int ts ≡ some t
          → is_expired d.now t ttl ≡ false
          → roster after.1 ≡ roster d
      fresh_lem t e fresh =
          let (row, d') = get_user_by_username user d in
          let out : after ≡ check_signature parse_int hmac ip user ts signature row d' =
            ground (arith, e, fresh) in
          ap (λ x. roster x.1) out
          ∙ check_signature-roster ip user ts signature row d'
          ∙ get_user_by_username-roster user d

  pub verify_hmac-roster :
      (header : Text) (ttl : ℕ) (ip : Text) (d : Db)
      → roster (verify_hmac parse_int hmac header ttl ip d).1 ≡ roster d
  unfolding verify_hmac refuse
  verify_hmac-roster header ttl ip d = elim (Bool-cases (not (has_prefix header hmac_prefix))) [
    | inl e ↦ rw e (record_failed_attempt-roster _ ip _ d)
    | inr e ↦ elim (Option-cases (split_payload (strip_prefix header hmac_prefix))) [
      | inl bad ↦ rw (e, bad) (record_failed_attempt-roster _ ip _ d)
      | inr ((user, ts, signature), good) ↦
          rw (e, good) (check_fields-roster ttl ip user ts signature d)
    ]
  ]

  pub is_admin-roster :
      (name : Text) (d : Db) → roster (is_admin parse_int hmac name d).1 ≡ roster d
  unfolding is_admin
  is_admin-roster name d = get_user_by_username-roster name d
