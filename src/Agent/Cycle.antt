-- ===== src/Agent/Cycle.antt =====
-- One cycle of the agent (internal/agent/agent.go: step), by what the pull comes to.
use nft_okboy_fleet.Prelude.{
  ◌≡◌, inl, inr, Bool, false, Option, none, some, List, [], map, arith, nat_discrete, Bool-discrete,
  Option-cases, ℤ-discrete, Text, Text-discrete,
}
use nft_okboy_fleet.Firewall.{Rule, PortProto, FirewallBackend, FwError}
use nft_okboy_fleet.Firewall.Lawful.{Key, Laws}
use nft_okboy_fleet.Agent.Filter.{filter-IsPlainRule}
use nft_okboy_fleet.Firewall.ReconcileAll.{reconcile_all}
use nft_okboy_fleet.Firewall.ReconcileAll.Passes.{NoHostRule}
use nft_okboy_fleet.Firewall.ReconcileAll.Exact.{
  copies, wanted, reconcile_all_exact, reconcile_all_bound,
}
use nft_okboy_fleet.Agent.{
  HubRule, Options, AgentState, to_rule, sanitize, filter_allowed, reconcile, sync_guard,
  reapply_guard, after_pull, step, apply_guard, split_allowed, revoked, unavailable, answer,
}

module _ (be : FirewallBackend) (laws : Laws be) (canonical_ip : Text → Option Text) where
  open laws use {rules, IsValid}

  -- SyncGuard and EnsureBase change no allow rule (the guard's rules are not managed rules).
  pub record GuardApart : Type 0 where
    pub base_valid : (s : be.State) → IsValid s → IsValid (be.ensure_base s).1
    pub base_keeps : (s : be.State) → rules (be.ensure_base s).1 ≡ rules s
    pub guard_valid :
        (sync : List PortProto → be.State → Option FwError × be.State)
        → be.sync_guard ≡ some sync
        → (ports : List PortProto) (s : be.State) → IsValid s
        → IsValid (sync ports s).1
    pub guard_keeps :
        (sync : List PortProto → be.State → Option FwError × be.State)
        → be.sync_guard ≡ some sync
        → (ports : List PortProto) (s : be.State) → rules (sync ports s).1 ≡ rules s

  module _ (apart : GuardApart) (written : Bool) (opts : Options) where
    rules-reapply_guard :
        (st : AgentState) (s : be.State) → rules (reapply_guard be canonical_ip opts st s) ≡ rules s
    unfolding reapply_guard
    rules-reapply_guard st s = elim (Option-cases be.sync_guard) [
      | inl nil ↦ ground (arith, nil)
      | inr (sync, has_guard) ↦ ground (
        arith,
        has_guard,
        apart.guard_keeps sync has_guard [] s,
        apart.guard_keeps sync has_guard (split_allowed st.ports opts.allowed_ports).0 s,
      )
    ]

    rules-apply_guard :
        (sync : List PortProto → be.State → Option FwError × be.State)
        → be.sync_guard ≡ some sync
        → (ports : List PortProto) (st : AgentState) (s : be.State)
        → rules (apply_guard be canonical_ip sync written opts ports (st, s)).1 ≡ rules s
    unfolding apply_guard
    rules-apply_guard sync h ports st s = ground (arith, apart.guard_keeps sync h ports s)

    rules-sync_guard :
        (hub : Option (List PortProto)) (st : AgentState) (s : be.State)
        → rules (sync_guard be canonical_ip written opts hub (st, s)).1 ≡ rules s
    unfolding sync_guard
    rules-sync_guard none st s = elim (Option-cases be.sync_guard) [
      | inl nil ↦ ground (arith, nil)
      | inr (sync, h) ↦ ground (arith, h, rules-apply_guard sync h [] st s)
    ]
    rules-sync_guard (some ports) st s = elim (Option-cases be.sync_guard) [
      | inl nil ↦ ground (arith, nil)
      | inr (sync, h) ↦ ground (
        arith,
        h,
        rules-apply_guard sync h [] st s,
        rules-apply_guard sync h (split_allowed ports opts.allowed_ports).0
            (record st { unguarded = (split_allowed ports opts.allowed_ports).1 }) s,
      )
    ]

    valid-apply_guard :
        (sync : List PortProto → be.State → Option FwError × be.State)
        → be.sync_guard ≡ some sync
        → (ports : List PortProto) (st : AgentState) (s : be.State) → IsValid s
        → IsValid (apply_guard be canonical_ip sync written opts ports (st, s)).1
    unfolding apply_guard
    valid-apply_guard sync h ports st s v = ground (arith, apart.guard_valid sync h ports s v)

    valid-reapply_guard :
        (st : AgentState) (s : be.State)
        → IsValid s
        → IsValid (reapply_guard be canonical_ip opts st s)
    unfolding reapply_guard
    valid-reapply_guard st s v = elim (Option-cases be.sync_guard) [
      | inl nil ↦ ground (arith, nil)
      | inr (sync, h) ↦ ground (
        arith,
        h,
        apart.guard_valid sync h [] s v,
        apart.guard_valid sync h (split_allowed st.ports opts.allowed_ports).0 s v,
      )
    ]

    -- Over a backend that obeys the laws and whose guard and base change no allow rule: a cycle
    -- whose pull fails, other than by a rejected token, leaves every allow rule in place.
    pub rules-step_unavailable :
        (st : AgentState) (s : be.State)
        → rules (step be canonical_ip written opts unavailable (st, s)).1 ≡ rules s
    unfolding step after_pull
    rules-step_unavailable st s =
        ground (arith, apart.base_keeps s, rules-reapply_guard st (be.ensure_base s).1)

    -- The state that a cycle reconciles, once the base and the last guard are back.
    abbrev pub ready : AgentState → be.State → be.State
    ready st s = reapply_guard be canonical_ip opts st (be.ensure_base s).1

    ready_valid : (st : AgentState) (s : be.State) → IsValid s → IsValid (ready st s)
    ready_valid st s v = valid-reapply_guard st (be.ensure_base s).1 (apart.base_valid s v)

    -- Over a backend that obeys the laws and whose guard and base change no allow rule, in a
    -- valid state whose base can be ensured: a cycle whose token the hub rejects leaves no
    -- managed rule, when its reconcile reports no error, so that a node that the hub no longer
    -- knows admits nobody.
    pub rules-step_revoked :
        (st : AgentState) (s : be.State)
        → IsValid s
        → (be.ensure_base s).0 ≡ none
        → (reconcile be canonical_ip [] (ready st s)).err ≡ none
        → (k : Key) → copies k (rules (step be canonical_ip written opts revoked (st, s)).1) ≡ 0
    unfolding step after_pull reconcile
    rules-step_revoked st s v base fine k =
        ground
          (arith, base, reconcile_all_bound be laws [] (ready st s) tt (ready_valid st s v) fine k)

    -- The rules that the node accepts of an answer.
    abbrev pub accepted : List HubRule → List Rule
    accepted sent = map to_rule (filter_allowed (sanitize canonical_ip sent) opts.allowed_ports)

    -- Over a backend that obeys the laws and whose guard and base change no allow rule, that
    -- merges no rules and never answers with a host's own rule, in a valid state whose base can
    -- be ensured: a cycle in which the hub answers and the reconcile reports no error leaves
    -- exactly one managed rule for each rule that the node accepts of the answer, and no other.
    pub rules-step-answer :
        (st : AgentState) (s : be.State) (sent : List HubRule) (ports : Option (List PortProto))
        → IsValid s
        → NoHostRule be laws
        → be.merges_same_match ≡ false
        → (be.ensure_base s).0 ≡ none
        → (reconcile be canonical_ip
            (filter_allowed (sanitize canonical_ip sent) opts.allowed_ports)
            (ready st s)).err
          ≡ none
        → (k : Key)
        → copies k (rules (step be canonical_ip written opts (answer sent ports) (st, s)).1)
          ≡ wanted k (accepted sent)
    unfolding step after_pull reconcile
    rules-step-answer st s sent ports v host merges base fine k = ground (
      arith,
      base,
      reconcile_all_exact be laws (accepted sent) (ready st s)
          (filter-IsPlainRule canonical_ip opts.allowed_ports sent) (ready_valid st s v) host merges
          fine k,
      rules-sync_guard ports (record st { was_revoked = false })
          (reconcile_all be (accepted sent) (ready st s)).state,
    )
