-- ===== src/Auth/Outcome.antt =====
-- What a verdict of VerifyHMAC and RequireAdmin means.
use nft_okboy_fleet.Prelude.{
  ℕ, ◌≡◌, refl, ◌≢◌, inl, inr, true, false, Option, none, some, ◌∷◌, ◌++◌, arith, nat_discrete,
  Bool-discrete, Bool-cases, Option-cases, ℤ, ℤ-discrete, Text, Text-discrete, has_prefix,
  strip_prefix, subst,
}
use nft_okboy_fleet.Db.{
  User, Db, Result, ok, err, Reason, unknown_user, invalid_signature, query, find,
}
use nft_okboy_fleet.Db.Users.{get_user_by_username, by_name}
use nft_okboy_fleet.Auth.{
  Message, invalid_credentials, granted, hmac_prefix, split_payload, is_expired, check_signature,
  check_fields, verify_hmac, refuse, invalid_timestamp, bad_header, reason, malformed_payload,
  signature_expired,
}

module _ (parse_int : Text → Option ℤ) (hmac : Text → Text → Text) where
  -- What a header proves: the user's own secret signed the name and a fresh timestamp.
  pub record Proves (header : Text) (ttl : ℕ) (d : Db) (username : Text) : Type 0 where
    pub ts : Text
    pub time : ℤ
    pub signature : Text
    pub row : User
    pub scheme : has_prefix header hmac_prefix ≡ true
    pub fields : split_payload (strip_prefix header hmac_prefix) ≡ some (username, ts, signature)
    pub number : parse_int ts ≡ some time
    pub fresh : is_expired d.now time ttl ≡ false
    pub known : find (by_name username) d.users ≡ some row
    pub signed : signature ≡ hmac row.secret (username ++ b':' ∷ ts)

  get_user_found :
      (username : Text) (d : Db) (row : User)
      → (get_user_by_username username d).0 ≡ ok (some row)
      → find (by_name username) d.users ≡ some row
  unfolding get_user_by_username query
  get_user_found username d row h = ground arith

  refuse_refuses :
      (u : Option Text) (ip : Text) (why : Reason) (m : Message) (d : Db) (name : Text)
      → (refuse u ip why m d).0 ≢ granted name
  unfolding refuse
  refuse_refuses u ip why m d name h = cc

  check_signature_sound :
      (ip user ts signature name : Text) (row : Result (Option User)) (d : Db)
      → (check_signature parse_int hmac ip user ts signature row d).0 ≡ granted name
      → (u : User) × (row ≡ ok (some u))
        × (signature ≡ hmac u.secret (user ++ b':' ∷ ts))
        × (user ≡ name)
  unfolding check_signature
  check_signature_sound ip user ts signature name (err e) d h =
      absurd (refuse_refuses (some user) ip unknown_user invalid_credentials d name h)
  check_signature_sound ip user ts signature name (ok none) d h =
      absurd (refuse_refuses (some user) ip unknown_user invalid_credentials d name h)
  check_signature_sound ip user ts signature name (ok (some u)) d h =
      let bad = refuse_refuses (some user) ip invalid_signature invalid_credentials d name in
      (u, refl, ground (arith, bad), ground (arith, bad))

  check_fields_sound :
      (ttl : ℕ) (ip user ts signature name : Text) (d : Db)
      → (check_fields parse_int hmac ttl ip user ts signature d).0 ≡ granted name
      → (user ≡ name)
        × (t : ℤ) × (parse_int ts ≡ some t)
        × (is_expired d.now t ttl ≡ false)
        × (u : User) × (find (by_name user) d.users ≡ some u)
        × (signature ≡ hmac u.secret (user ++ b':' ∷ ts))
  unfolding check_fields
  check_fields_sound ttl ip user ts signature name d h = elim (Option-cases (parse_int ts)) [
    | inl p ↦ absurd (
        refuse_refuses (some user) ip invalid_timestamp (reason invalid_timestamp) d name
          (ground (arith, h, p)))
    | inr (t, p) ↦ elim (Bool-cases (is_expired d.now t ttl)) [
      | inl q ↦ absurd (
          refuse_refuses (some user) ip signature_expired (reason signature_expired) d name
            (ground (arith, h, p, q)))
      | inr q ↦
          let k =
            check_signature_sound ip user ts signature name (get_user_by_username user d).0
              (get_user_by_username user d).1 (ground (arith, h, p, q)) in
          (k.3, t, p, q, k.0, get_user_found user d k.0 k.1, k.2)
    ]
  ]

  -- A header that VerifyHMAC accepts has the scheme, names a user of the table, and carries a
  -- timestamp that is not expired and the signature of the name and that timestamp under the
  -- secret of the user's row; the name it answers is the one the header carries.
  pub verify_hmac_sound :
      (header : Text) (ttl : ℕ) (ip : Text) (d : Db) (name : Text)
      → (verify_hmac parse_int hmac header ttl ip d).0 ≡ granted name
      → Proves header ttl d name
  unfolding verify_hmac
  verify_hmac_sound header ttl ip d name h = elim (Bool-cases (has_prefix header hmac_prefix)) [
    | inr p ↦
        absurd (refuse_refuses none ip bad_header (reason bad_header) d name (ground (arith, h, p)))
    | inl p ↦ elim (Option-cases (split_payload (strip_prefix header hmac_prefix))) [
      | inl q ↦ absurd (
          refuse_refuses none ip malformed_payload (reason malformed_payload) d name
            (ground (arith, h, p, q)))
      | inr ((user, ts, signature), q) ↦
          let (same, t, number, fresh, u, known, signed) =
            check_fields_sound ttl ip user ts signature name d (ground (arith, h, p, q)) in
          subst (λ n. Proves header ttl d n) same
            (record {
              ts = ts;
              time = t;
              signature = signature;
              row = u;
              scheme = p;
              fields = q;
              number = number;
              fresh = fresh;
              known = known;
              signed = signed;
            })
    ]
  ]
