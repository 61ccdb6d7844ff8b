-- ===== src/Server/Knock/Proven.antt =====
-- Who can change the firewall by a knock, and how a knock that is refused ends.
use nft_okboy_fleet.Prelude.{
  ◌≡◌, refl, ap, ◌∙◌, ◌≢◌, ◌⊎◌, inl, inr, true, false, nat_discrete, Bool-discrete, Bool-cases,
  ℤ-discrete, Text, Text-discrete,
}
use nft_okboy_fleet.Auth.{Message, Verdict, granted, refused, verify_hmac}
use nft_okboy_fleet.Auth.Outcome.{Proves, verify_hmac_sound}
use nft_okboy_fleet.Db.{Db}
use nft_okboy_fleet.Firewall.{FirewallBackend}
use nft_okboy_fleet.Server.{Config, Request, World}
use nft_okboy_fleet.Server.Handler.{
  Library, unauthorized, answered, continue, settle, judged, require, ◌>>=◌, ◌>>◌,
}
use nft_okboy_fleet.Server.Knock.{address, throttle_address, auth_user, is_remote, knock_as, knock}

verdict_cases {ℓ} :
    {A : Type ℓ} (v : Verdict A) → ((m : Message) × (v ≡ refused m)) ⊎ ((a : A) × (v ≡ granted a))
verdict_cases (refused m) = inl (m, refl)
verdict_cases (granted a) = inr (a, refl)

module _ (lib : Library) (cfg : Config) (be : FirewallBackend) (prefix : Text) where
  -- VerifyHMAC's verdict on a request.
  abbrev pub verdict : Request → Db → Verdict Text × Db
  verdict r d =
      verify_hmac lib.parse_int lib.hmac r.authorization cfg.signature_ttl
        (throttle_address lib cfg be prefix r) d

  knock_local_lem :
      (username ip : Text) (w : World be)
      → is_remote lib cfg be prefix ip ≡ false
      → (knock_as lib cfg be prefix ip username w).1.fw ≡ w.fw
  unfolding knock_as require ◌>>=◌ ◌>>◌ continue
  knock_local_lem username ip w h = rw (h) refl

  knock_granted_lem :
      (r : Request) (w : World be) (name : Text)
      → (verdict r w.db).0 ≡ granted name
      → knock lib cfg be prefix r w
        ≡ knock_as lib cfg be prefix
            (address lib cfg be prefix r)
            name
            (record w { db = (verdict r w.db).1 })
  unfolding knock auth_user judged settle ◌>>=◌ continue
  knock_granted_lem r w name h = rw (h) refl

  -- A knock whose request VerifyHMAC refuses answers 401 with the verdict's message, and the
  -- firewall stays as it is.
  knock_refused :
      (r : Request) (w : World be) (m : Message)
      → (verdict r w.db).0 ≡ refused m
      → ((knock lib cfg be prefix r w).0 ≡ answered (unauthorized m))
        × ((knock lib cfg be prefix r w).1.fw ≡ w.fw)
  unfolding knock auth_user judged settle ◌>>=◌ continue
  knock_refused r w m h = (rw (h) refl, rw (h) refl)

  -- A knock that changes the firewall's state carries a header that proves a user, and its client's
  -- address is a literal that is neither loopback nor unspecified.
  pub knock_proven :
      (r : Request) (w : World be)
      → (knock lib cfg be prefix r w).1.fw ≢ w.fw
      → (name : Text) × Proves lib.parse_int lib.hmac r.authorization cfg.signature_ttl w.db name
        × (is_remote lib cfg be prefix (address lib cfg be prefix r) ≡ true)
  knock_proven r w changed = elim (verdict_cases (verdict r w.db).0) [
    | inl (m, q) ↦ absurd (changed (knock_refused r w m q).1)
    | inr (name, q) ↦
        elim (Bool-cases (is_remote lib cfg be prefix (address lib cfg be prefix r))) [
          | inl p ↦ (
            name,
            verify_hmac_sound lib.parse_int lib.hmac r.authorization cfg.signature_ttl
                (throttle_address lib cfg be prefix r) w.db name q,
            p,
          )
          | inr p ↦ absurd (
              changed (
                ap (λ x. x.1.fw) (knock_granted_lem r w name q)
                ∙ knock_local_lem name (address lib cfg be prefix r)
                    (record w { db = (verdict r w.db).1 }) p))
        ]
  ]
