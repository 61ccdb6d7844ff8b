-- ===== src/Agent/OverNft.antt =====
-- The agent (internal/agent/agent.go) over the nftables backend (internal/firewall/nft.go).
use nft_okboy_fleet.Prelude.{
  ◌≡◌, refl, ap, ◌≢◌, Bool, Option, none, some, List, [], ◌∷◌, map, arith, nat_discrete,
  Bool-discrete, ℤ, ℤ-discrete, All, Text, Text-discrete, subst,
}
use nft_okboy_fleet.Firewall.{Rule, PortProto, FirewallBackend, FwError, check_rule}
use nft_okboy_fleet.Firewall.Lawful.{Key, key_of, Laws, IsPlainRule}
use nft_okboy_fleet.Firewall.ReconcileAll.Exact.{copies, wanted}
use nft_okboy_fleet.Firewall.ReconcileAll.Succeeds.{reconcile_all-succeeds}
use nft_okboy_fleet.Firewall.Nft.{Nft, nft_backend, sync_guard}
use nft_okboy_fleet.Firewall.Nft.Kernel.{Documented}
use nft_okboy_fleet.Firewall.Nft.Lawful.{managed, nft_laws}
use nft_okboy_fleet.Firewall.Nft.Apart.{managed-sync_guard, chain-ensure_base}
use nft_okboy_fleet.Firewall.Nft.Runs.{Runs, Fits, nft-Available, base_succeeds, no_host_rule}
use nft_okboy_fleet.Agent.{
  HubRule, Options, AgentState, answer, step, reconcile, to_rule, sanitize, filter_allowed,
}
use nft_okboy_fleet.Agent.Filter.{IsAcceptable, filter-IsAcceptable, filter-IsPlainRule}
use nft_okboy_fleet.Agent.Cycle.{GuardApart, rules-step-answer}

module _ (nft : Nft) (parse_ip : Text → Option Text) (is_v4 : Text → Bool) (prefix : Text) where
  abbrev backend : FirewallBackend
  backend = nft_backend nft parse_ip is_v4 prefix

  module _ (doc : Documented nft) where
    abbrev pub laws : Laws backend
    laws = nft_laws nft parse_ip is_v4 prefix doc

    module _ (canonical_ip : Text → Option Text) where
      the_guard :
          (sync : List PortProto → nft.Kernel → Option FwError × nft.Kernel)
          → some (sync_guard nft parse_ip is_v4 prefix) ≡ some sync
          → sync_guard nft parse_ip is_v4 prefix ≡ sync
      the_guard sync h =
          ap (λ o. elim o [ none ↦ sync_guard nft parse_ip is_v4 prefix | some f ↦ f ]) h

      guard_apart : GuardApart backend laws canonical_ip
      unfolding nft_laws
      guard_apart = record {
        base_valid = λ s v. v;
        base_keeps = λ s.
            ap (managed nft parse_ip is_v4 prefix)
              (chain-ensure_base nft parse_ip is_v4 prefix doc s);
        guard_valid = λ sync h ports s v. v;
        guard_keeps = λ sync h ports s.
            subst
              (λ f.
                managed nft parse_ip is_v4 prefix (doc.chain (f ports s).1)
                ≡ managed nft parse_ip is_v4 prefix (doc.chain s))
              (the_guard sync h) (managed-sync_guard nft parse_ip is_v4 prefix doc ports s);
      }

      accepted-Fits :
          ((sent ip : Text) → canonical_ip sent ≡ some ip → parse_ip ip ≢ none)
          → (allowed : List ℤ) (ds : List HubRule) → All (IsAcceptable canonical_ip allowed) ds
          → All IsPlainRule (map to_rule ds)
          → All (λ d. Fits nft parse_ip is_v4 prefix doc (key_of d)) (map to_rule ds)
      unfolding key_of check_rule
      accepted-Fits reads allowed [] a plain = tt
      accepted-Fits reads allowed (d ∷ ds) a plain =
          let parsed = reads a.0.sent d.ip a.0.single_ip in
          (
            (plain.0, ground (arith, parsed, a.0.port_valid, a.0.proto_known)),
            accepted-Fits reads allowed ds a.1 plain.1,
          )

      reconcile-succeeds :
          Runs nft parse_ip is_v4 prefix doc
          → ((sent ip : Text) → canonical_ip sent ≡ some ip → parse_ip ip ≢ none)
          → (allowed : List ℤ) (sent : List HubRule) (s : nft.Kernel)
          → (reconcile backend canonical_ip
              (filter_allowed (sanitize canonical_ip sent) allowed)
              s).err
            ≡ none
      unfolding reconcile nft_laws
      reconcile-succeeds works reads allowed sent s =
          reconcile_all-succeeds backend laws (Fits nft parse_ip is_v4 prefix doc)
            (nft-Available nft parse_ip is_v4 prefix doc works) _ s
            (accepted-Fits reads allowed _ (filter-IsAcceptable canonical_ip allowed sent)
              (filter-IsPlainRule canonical_ip allowed sent))
            tt

      abbrev chain_rules : nft.Kernel → List Rule
      chain_rules s = managed nft parse_ip is_v4 prefix (doc.chain s)

      -- Over nft as documented that runs what it is asked, where net.ParseIP reads back the canonical
      -- form of every address: from any chain whatever, one cycle in which the hub answers ends with
      -- exactly one managed rule in the chain for each rule that the node accepts of the answer, and
      -- no other managed rule.
      pub nft_step-answer :
          Runs nft parse_ip is_v4 prefix doc
          → ((sent ip : Text) → canonical_ip sent ≡ some ip → parse_ip ip ≢ none)
          → (written : Bool) (opts : Options) (st : AgentState) (s : nft.Kernel)
          → (sent : List HubRule) (ports : Option (List PortProto)) (k : Key)
          → copies k
              (chain_rules (step backend canonical_ip written opts (answer sent ports) (st, s)).1)
            ≡ wanted k
                (map to_rule (filter_allowed (sanitize canonical_ip sent) opts.allowed_ports))
      unfolding nft_laws
      nft_step-answer works reads written opts st s sent ports k =
          rules-step-answer backend laws canonical_ip guard_apart written opts st s sent ports tt
            (no_host_rule nft parse_ip is_v4 prefix doc) refl
            (base_succeeds nft parse_ip is_v4 prefix doc works s)
            (reconcile-succeeds works reads opts.allowed_ports sent _) k
