-- ===== src/Agent/Filter.antt =====
-- What passes the agent's filters, whatever the hub sends.
use nft_okboy_fleet.Firewall.Names.Laws.{valid_name-IsPlain}
use nft_okboy_fleet.Firewall.Lawful.{IsPlainRule}
use nft_okboy_fleet.Prelude.{
  ◌≡◌, refl, ◌⊎◌, inl, inr, true, false, Option, none, some, List, [], ◌∷◌, arith, nat_discrete,
  Bool-discrete, Bool-cases, Option-cases, ℤ, ℤ-discrete, keep, All, has, Text, Text-discrete,
}
use nft_okboy_fleet.Firewall.{port_in_range, known_proto}
use nft_okboy_fleet.Firewall.Names.{valid_name}
use nft_okboy_fleet.Agent.{HubRule, well_formed, sanitize, filter_allowed, map, to_rule}

-- A rule that may reach the firewall.
pub record IsAcceptable (canonical_ip : Text → Option Text) (allowed : List ℤ) (d : HubRule)
    : Type 0 where
  pub sent : Text
  pub single_ip : canonical_ip sent ≡ some d.ip
  pub port_valid : port_in_range d.port ≡ true
  pub proto_known : known_proto d.proto ≡ true
  pub user_valid : valid_name d.user ≡ true
  pub group_valid : valid_name d.group ≡ true
  pub port_allowed : (allowed ≡ []) ⊎ (has d.port allowed ≡ true)

module _ (canonical_ip : Text → Option Text) where
  module _ (d : HubRule) (ds : List HubRule) where
    drops_address :
        canonical_ip d.ip ≡ none → sanitize canonical_ip (d ∷ ds) ≡ sanitize canonical_ip ds
    unfolding sanitize
    drops_address h = ground (arith, h)

    drops_fields : well_formed d ≡ false → sanitize canonical_ip (d ∷ ds) ≡ sanitize canonical_ip ds
    unfolding sanitize
    drops_fields h = ground (arith, h)

    passes :
        (ip : Text)
        → canonical_ip d.ip ≡ some ip
        → well_formed d ≡ true
        → sanitize canonical_ip (d ∷ ds) ≡ record d { ip = ip } ∷ sanitize canonical_ip ds
    unfolding sanitize
    passes ip h w = ground (arith, h, w)

  sanitize-IsAcceptable :
      (ds : List HubRule) → All (IsAcceptable canonical_ip []) (sanitize canonical_ip ds)
  unfolding sanitize
  sanitize-IsAcceptable [] = tt
  sanitize-IsAcceptable (d ∷ ds) = elim (Option-cases (canonical_ip d.ip)) [
    | inl bad ↦ rw (drops_address d ds bad) (sanitize-IsAcceptable ds)
    | inr (ip, good) ↦ elim (Bool-cases (well_formed d)) [
      | inl fine ↦ rw (passes d ds ip good fine) (
        record {
          sent = d.ip;
          single_ip = good;
          port_valid = ground arith;
          proto_known = ground arith;
          user_valid = ground arith;
          group_valid = ground arith;
          port_allowed = inl refl;
        },
        sanitize-IsAcceptable ds,
      )
      | inr wrong ↦ rw (drops_fields d ds wrong) (sanitize-IsAcceptable ds)
    ]
  ]

  allowed-IsAcceptable :
      (allowed : List ℤ) (d : HubRule)
      → IsAcceptable canonical_ip [] d
      → has d.port allowed ≡ true
      → IsAcceptable canonical_ip allowed d
  allowed-IsAcceptable allowed d a h = record {
    sent = a.sent;
    single_ip = a.single_ip;
    port_valid = a.port_valid;
    proto_known = a.proto_known;
    user_valid = a.user_valid;
    group_valid = a.group_valid;
    port_allowed = inr h;
  }

  keep-IsAcceptable :
      (allowed : List ℤ) (ds : List HubRule)
      → All (IsAcceptable canonical_ip []) ds
      → All (IsAcceptable canonical_ip allowed) (keep (λ d. has d.port allowed) ds)
  keep-IsAcceptable allowed [] a = tt
  keep-IsAcceptable allowed (d ∷ ds) a = elim (Bool-cases (has d.port allowed)) [
    | inl yes' ↦ rw yes' (allowed-IsAcceptable allowed d a.0 yes', keep-IsAcceptable allowed ds a.1)
    | inr no' ↦ rw no' (keep-IsAcceptable allowed ds a.1)
  ]

  -- Whatever the hub sends, each rule that passes the agent's filters is one canonical address on a
  -- port in 1..65535, with tcp or udp and well-formed names, and its port is one of the allowed
  -- ports if the node lists any.
  pub filter-IsAcceptable :
      (allowed : List ℤ) (ds : List HubRule)
      → All (IsAcceptable canonical_ip allowed) (filter_allowed (sanitize canonical_ip ds) allowed)
  unfolding filter_allowed
  filter-IsAcceptable [] ds = sanitize-IsAcceptable ds
  filter-IsAcceptable (p ∷ allowed) ds =
      keep-IsAcceptable (p ∷ allowed) (sanitize canonical_ip ds) (sanitize-IsAcceptable ds)

  All-IsPlainRule :
      (allowed : List ℤ) (ds : List HubRule)
      → All (IsAcceptable canonical_ip allowed) ds
      → All IsPlainRule (map to_rule ds)
  All-IsPlainRule allowed [] a = tt
  All-IsPlainRule allowed (d ∷ ds) a = (
    (valid_name-IsPlain d.user a.0.user_valid, valid_name-IsPlain d.group a.0.group_valid),
    All-IsPlainRule allowed ds a.1,
  )

  -- The accepted rules have names that a comment gives back.
  pub filter-IsPlainRule :
      (allowed : List ℤ) (ds : List HubRule)
      → All IsPlainRule (map to_rule (filter_allowed (sanitize canonical_ip ds) allowed))
  filter-IsPlainRule allowed ds = All-IsPlainRule allowed _ (filter-IsAcceptable allowed ds)
