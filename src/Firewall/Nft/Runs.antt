-- ===== src/Firewall/Nft/Runs.antt =====
-- The nftables backend (internal/firewall/nft.go) where nft does what it is asked.
use nft_okboy_fleet.Prelude.{
  ◌≤◌, ◌≡◌, refl, inl, inr, Bool, true, Option, none, some, List, [], ◌∷◌, map, arith, nat_discrete,
  Bool-discrete, Option-cases, ℤ, ℤ-discrete, count, All, Text, Text-discrete,
}
use nft_okboy_fleet.Firewall.{Rule, FirewallBackend, check_rule}
use nft_okboy_fleet.Firewall.Lawful.{Key, key_of, Laws, IsPlainKey, IsPlainRule}
use nft_okboy_fleet.Firewall.ReconcileAll.{reconcile_all}
use nft_okboy_fleet.Firewall.ReconcileAll.Passes.{NoHostRule}
use nft_okboy_fleet.Firewall.ReconcileAll.Exact.{copies, wanted, reconcile_all_exact}
use nft_okboy_fleet.Firewall.ReconcileAll.Succeeds.{Available, reconcile_all-succeeds}
use nft_okboy_fleet.Firewall.Comment.{managed_prefix}
use nft_okboy_fleet.Firewall.Nft.{
  Nft, filtered, rule_of, allow_rule, NftRule, NewRule, add_table, add_chain, insert, delete,
  nft_backend, ensure_base, add_rule, delete_by_handle, list_managed, list_filtered, list_chain,
}
use nft_okboy_fleet.Firewall.Nft.Kernel.{Documented, at_handle}
use nft_okboy_fleet.Firewall.Nft.Lawful.{managed, nft_laws, handle-managed}

module _ (nft : Nft) (parse_ip : Text → Option Text) (is_v4 : Text → Bool) (prefix : Text) where
  abbrev backend : FirewallBackend
  backend = nft_backend nft parse_ip is_v4 prefix

  module _ (doc : Documented nft) where
    abbrev laws : Laws backend
    laws = nft_laws nft parse_ip is_v4 prefix doc

    -- When nft does what it is asked: a chain is listed, and a program runs that sets up the base,
    -- inserts a rule or deletes a rule of the chain.
    pub record Runs : Type 0 where
      pub lists : (s : nft.Kernel) → (rs : List NftRule) × (nft.list s ≡ some rs)
      pub base : (s : nft.Kernel) → (nft.run (add_table ∷ add_chain ∷ []) s).0 ≡ true
      pub inserts : (r : NewRule) (s : nft.Kernel) → (nft.run (insert r ∷ []) s).0 ≡ true
      pub deletes :
          (h : ℤ) (s : nft.Kernel)
          → 1 ≤ count (at_handle h) (doc.chain s)
          → (nft.run (delete h ∷ []) s).0 ≡ true

    abbrev pub Fits : Key → Type 0
    Fits k = IsPlainKey k × (check_rule parse_ip k.ip k.port k.proto ≡ none)

    pub nft-Available : Runs → Available backend laws Fits
    unfolding nft_laws add_rule delete_by_handle list_managed list_filtered list_chain
    nft-Available works = record {
      plain = λ k fits. fits.0;
      lists = λ s v.
          let (rs, shown) = works.lists s in
          (
            filtered nft parse_ip is_v4 prefix (managed_prefix prefix) (map rule_of rs),
            ground (arith, shown),
          );
      adds = λ k s v fits. ground (
        arith,
        fits.1,
        works.inserts (allow_rule nft parse_ip is_v4 prefix k.ip k.port k.user k.proto k.group) s,
      );
      deletes = λ h s v there. ground (
        arith,
        works.deletes h s
            (omega (arith, there, handle-managed nft parse_ip is_v4 prefix h (doc.chain s))),
      );
    }

    pub base_succeeds : Runs → (s : nft.Kernel) → (ensure_base nft parse_ip is_v4 prefix s).0 ≡ none
    unfolding ensure_base
    base_succeeds works s = ground (arith, works.base s)

    pub no_host_rule : NoHostRule backend laws
    unfolding add_rule check_rule
    no_host_rule k s e h = elim (Option-cases (parse_ip k.ip)) [
      | inl bad ↦ ground (arith, h, bad)
      | inr (ip, good) ↦ ground (arith, h, good)
    ]

    All-IsPlainRule : (rs : List Rule) → All (λ d. Fits (key_of d)) rs → All IsPlainRule rs
    unfolding key_of
    All-IsPlainRule [] fits = tt
    All-IsPlainRule (d ∷ rs) fits = (fits.0.0, All-IsPlainRule rs fits.1)

    -- A pass of ReconcileAll leaves in the chain one managed rule for each desired key, no other.
    pub nft_exact :
        Runs
        → (desired : List Rule) (s : nft.Kernel) → All (λ d. Fits (key_of d)) desired
        → (k : Key)
        → copies k
            (managed nft parse_ip is_v4 prefix (doc.chain (reconcile_all backend desired s).state))
          ≡ wanted k desired
    unfolding nft_laws
    nft_exact works desired s fits k =
        reconcile_all_exact backend laws desired s (All-IsPlainRule desired fits) tt no_host_rule
          refl (reconcile_all-succeeds backend laws Fits (nft-Available works) desired s fits tt) k
