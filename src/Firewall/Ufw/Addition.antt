-- ===== src/Firewall/Ufw/Addition.antt =====
-- When the ufw backend (internal/firewall/ufw.go) adds a rule.
use nft_okboy_fleet.Prelude.{
  ◌≡◌, refl, sym, ◌⊎◌, inl, inr, true, false, Option, none, some, nat_discrete, Bool-discrete,
  Bool-cases, Option-cases, ℤ, ℤ-discrete, Text, Text-discrete, subst,
}
use nft_okboy_fleet.Firewall.{FwError, check_rule}
use nft_okboy_fleet.Firewall.Comment.{comment_for}
use nft_okboy_fleet.Firewall.Ufw.{Ufw, UfwLibrary, allow_from, ufw_inactive, host_rule_for}
use nft_okboy_fleet.Firewall.Ufw.Backend.{with_lock, add_rule, add_locked, add_over}
use nft_okboy_fleet.Firewall.Ufw.Deletion.{asked, read, outcome_host}

module _ (ufw : Ufw) (lib : UfwLibrary) (prefix ip user proto group : Text) (port : ℤ) where
  abbrev added : ufw.Host → Option FwError × ufw.Host
  added s = add_rule ufw lib prefix ip port user proto group s

  abbrev listing : ufw.Host → Option Text × ufw.Host
  listing s = read ufw lib prefix s

  -- The rule is run, over a listing that shows no rule of the host's for its match.
  abbrev pub Allows : ufw.Host → ufw.Host → Type 0
  Allows s s' =
      (output : Text) × ((listing s).0 ≡ some output)
      × (check_rule lib.parse_ip ip port proto ≡ none)
      × (ufw_inactive lib prefix output ≡ false)
      × (host_rule_for lib prefix output ip port proto ≡ none)
      × (s' ≡ (ufw.run (allow_from ip port proto (comment_for prefix user group)) (listing s).1).1)

  over_lem :
      (s : ufw.Host)
      → check_rule lib.parse_ip ip port proto ≡ none
      → (answer : Option Text) → (listing s).0 ≡ answer
      → ((add_over ufw lib prefix ip port user proto group answer (listing s).1).1 ≡ (listing s).1)
        ⊎ Allows s (add_over ufw lib prefix ip port user proto group answer (listing s).1).1
  unfolding add_over
  over_lem s fine none said = inl refl
  over_lem s fine (some output) said = elim (Bool-cases (ufw_inactive lib prefix output)) [
    | inl off ↦ inl (rw off refl)
    | inr on ↦ elim (Option-cases (host_rule_for lib prefix output ip port proto)) [
      | inr (action, host) ↦ inl (rw (on, host) refl)
      | inl free ↦ inr (output, said, fine, on, free, rw (on, free) (outcome_host ufw lib prefix _))
    ]
  ]

  locked_lem :
      (s : ufw.Host)
      → (ufw.lock s).0 ≡ true
      → check_rule lib.parse_ip ip port proto ≡ none
      → added s ≡ add_over ufw lib prefix ip port user proto group (listing s).0 (listing s).1
  unfolding add_rule with_lock add_locked
  locked_lem s held fine = rw (held, add_locked, fine) refl

  -- Whatever the rule and whatever ufw answers: AddRule only asks for the lock, or it has taken the
  -- lock and lists the rules, and then runs nothing or one `ufw allow` for this address, port, protocol
  -- and comment, which it does only for a valid address, port and protocol, while ufw is active and
  -- the listing shows no rule of the host's own with this match.
  pub add_rule-Allows :
      (s : ufw.Host)
      → ((added s).1 ≡ asked ufw lib prefix s)
        ⊎ (((ufw.lock s).0 ≡ true) × (((added s).1 ≡ (listing s).1) ⊎ Allows s (added s).1))
  unfolding add_rule with_lock add_locked
  add_rule-Allows s = elim (Bool-cases (ufw.lock s).0) [
    | inr busy ↦ inl (rw busy refl)
    | inl held ↦ elim (Option-cases (check_rule lib.parse_ip ip port proto)) [
      | inr (e, bad) ↦ inl (rw (held, add_locked, bad) refl)
      | inl fine ↦ inr (
        held,
        subst (λ x. (x.1 ≡ (listing s).1) ⊎ Allows s x.1) (sym (locked_lem s held fine))
            (over_lem s fine (listing s).0 refl),
      )
    ]
  ]
