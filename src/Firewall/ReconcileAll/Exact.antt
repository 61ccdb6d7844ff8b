-- ===== src/Firewall/ReconcileAll/Exact.antt =====
-- What ReconcileAll leaves behind, over any backend that obeys the laws.
use nft_okboy_fleet.Firewall.Lawful.Deletes.{listed_in}
use nft_okboy_fleet.Prelude.{
  ℕ, ℤ-discrete, true, false, none, List, [], ◌∷◌, map, ◌≡◌, ◌≢◌, ◌≤◌, ◌+◌, ◌<◌, ◌⊎◌, refl, All,
  arith, ◌&&◌, not, if◌then◌else◌, has, count, inl, inr, ltb, ap, ◌∙◌,
}
use nft_okboy_fleet.Firewall.{Rule, FirewallBackend, FwError, Listing, listed, unlisted}
use nft_okboy_fleet.Firewall.Lawful.{
  Key, Key-discrete, key_of, by_key, by_handle, Laws, IsPlainRule,
}
use nft_okboy_fleet.Firewall.ReconcileAll.{
  Match, match_of, Plan, scan, add_step, AddPass, add_all, start_adding, start_deleting, Outcome,
  apply_plan, reconcile_all, delete_all,
}
use nft_okboy_fleet.Firewall.ReconcileAll.Scan.{extra-managed, have-scan, stays-scan}
use nft_okboy_fleet.Firewall.ReconcileAll.Passes.{
  Grows, NoHostRule, IsClean, err-delete_all, delete_all_rules, delete_all_keeps, add_all-IsValid,
  add_all-Grows, have-add_all, add_all-have,
}

-- How many managed rules a key has.
abbrev pub copies : Key → List Rule → ℕ
copies k rs = count (by_key k) rs

abbrev pub wanted : Key → List Rule → ℕ
wanted k desired = if has k (map key_of desired) then 1 else 0

-- New rules are not among those whose handles the scan listed.
count_news :
    (k : Key) (want : List Key) (old news : List Rule)
    → All (λ r. count (by_handle r.handle) old ≡ 0) news
    → count (λ r. by_key k r && not (listed_in (scan want old [] []).extra r)) news
      ≡ count (by_key k) news
count_news k want old [] h = refl
count_news k want old (r ∷ news) h =
    ground (arith, extra-managed want r.handle old [] [] h.0, count_news k want old news h.1)

module _ (be : FirewallBackend) (laws : Laws be) where
  open laws use {rules, IsValid}

  module _ (desired : List Rule) (s : be.State) (plain : All IsPlainRule desired)
      (v : IsValid s) where
    abbrev plan : Plan
    plan = scan (map key_of desired) (rules s) [] []

    abbrev adds : AddPass be
    adds = add_all be desired (start_adding be plan s)

    grown : Grows (IsClean be laws adds) (rules s) (rules adds.state) plan.have adds.have
    grown = add_all-Grows be laws desired (start_adding be plan s) plain v

    -- The rules of a key that the plan does not delete, once the additions are made.
    after_adds :
        (k : Key)
        → count (λ r. by_key k r && not (listed_in plan.extra r)) (rules adds.state)
          ≡ (if has k (map key_of desired) && ltb 0 (copies k (rules s)) then 1 else 0)
            + count (by_key k) grown.news
    after_adds k = ground (
      arith,
      grown.counts (λ r. by_key k r && not (listed_in plan.extra r)),
      count_news k (map key_of desired) (rules s) grown.news grown.fresh,
      stays-scan (map key_of desired) k (rules s) [] [] (laws.unique s v),
    )

    abbrev done : Outcome be
    done = apply_plan be desired plan s

    added_bound :
        (k : Key)
        → (if has k (map key_of desired) && ltb 0 (copies k (rules s)) then 1 else 0)
            + count (by_key k) grown.news
          ≤ wanted k desired
    added_bound k = ground (
      arith,
      grown.at_most k,
      have-scan (map key_of desired) k (rules s) [] [],
      have-add_all be laws k desired (start_adding be plan s),
    )

    plan_bound : done.err ≡ none → (k : Key) → copies k (rules done.state) ≤ wanted k desired
    unfolding apply_plan
    plan_bound e k = omega (
      arith,
      delete_all_rules be laws plan.extra (start_deleting be adds)
          (add_all-IsValid be laws desired (start_adding be plan s) v) e (by_key k),
      after_adds k,
      added_bound k,
    )

    plan_exact :
        NoHostRule be laws
        → be.merges_same_match ≡ false
        → done.err ≡ none
        → (k : Key) → copies k (rules done.state) ≡ wanted k desired
    unfolding apply_plan
    plan_exact host merges e k =
        let clean : IsClean be laws adds =
          (host, err-delete_all be laws plan.extra (start_deleting be adds) e) in
        ground (
          arith,
          delete_all_rules be laws plan.extra (start_deleting be adds)
              (add_all-IsValid be laws desired (start_adding be plan s) v) e (by_key k),
          after_adds k,
          grown.at_least clean k,
          grown.at_most k,
          have-scan (map key_of desired) k (rules s) [] [],
          have-add_all be laws k desired (start_adding be plan s),
          add_all-have be laws k desired (start_adding be plan s) merges,
        )

    plan_keeps :
        (k : Key)
        → has k (map key_of desired) ≡ true
        → 0 < copies k (rules s)
        → 0 < copies k (rules done.state)
    unfolding apply_plan
    plan_keeps k w c = ground (
      arith,
      delete_all_keeps be laws plan.extra (start_deleting be adds)
          (add_all-IsValid be laws desired (start_adding be plan s) v) (by_key k),
      after_adds k,
    )

  module _ (desired : List Rule) (s : be.State) where
    abbrev after_list : be.State
    after_list = (be.list_managed s).1

    abbrev Runs : Type 0
    Runs =
        reconcile_all be desired s
        ≡ apply_plan be desired (scan (map key_of desired) (rules after_list) [] []) after_list

    run_unlisted :
        (e : FwError)
        → (be.list_managed s).0 ≡ unlisted e
        → ((reconcile_all be desired s).err ≢ none)
          × ((reconcile_all be desired s).state ≡ after_list)
    unfolding reconcile_all
    run_unlisted e h = (ground arith, ground arith)

    pub run_listed : (rs : List Rule) → (be.list_managed s).0 ≡ listed rs → Runs
    unfolding reconcile_all
    run_listed rs h = rw (laws.list_keeps s, ← laws.list_all s rs h) (ground arith)

    -- How a pass runs: the listing fails and nothing else happens, or the plan is carried out on
    -- the rules behind the state.
    reconcile_all_cases :
        (((reconcile_all be desired s).err ≢ none)
          × ((reconcile_all be desired s).state ≡ after_list))
        ⊎ Runs
    reconcile_all_cases = go (be.list_managed s).0 refl
      where
        go :
            (l : Listing)
            → (be.list_managed s).0 ≡ l
            → (((reconcile_all be desired s).err ≢ none)
                × ((reconcile_all be desired s).state ≡ after_list))
              ⊎ Runs
        go (unlisted e) h = inl (run_unlisted e h)
        go (listed rs) h = inr (run_listed rs h)

  -- Over a backend that obeys the laws, does not merge rules and never answers with a host's own
  -- rule: from a valid state, a pass over desired rules whose names are nonempty and without a
  -- colon, that reports no error, leaves exactly one managed rule for each desired key and no other
  -- managed rule.
  pub reconcile_all_exact :
      (desired : List Rule) (s : be.State)
      → All IsPlainRule desired
      → IsValid s
      → NoHostRule be laws
      → be.merges_same_match ≡ false
      → (reconcile_all be desired s).err ≡ none
      → (k : Key) → copies k (rules (reconcile_all be desired s).state) ≡ wanted k desired
  reconcile_all_exact desired s plain v host merges e k = elim (reconcile_all_cases desired s) [
    | inl (bad, _) ↦ absurd (bad e)
    | inr run ↦
        let s' = (be.list_managed s).1 in
        rw run (plan_exact desired s' plain (laws.list_valid s v) host merges (rw (← run) e) k)
  ]

  -- Over every backend that obeys the laws, also one that merges rules or has host rules: from a
  -- valid state, a pass over desired rules whose names are nonempty and without a colon, that reports
  -- no error, leaves no managed rule that is not desired, and no second copy of one that is.
  pub reconcile_all_bound :
      (desired : List Rule) (s : be.State)
      → All IsPlainRule desired
      → IsValid s
      → (reconcile_all be desired s).err ≡ none
      → (k : Key) → copies k (rules (reconcile_all be desired s).state) ≤ wanted k desired
  reconcile_all_bound desired s plain v e k = elim (reconcile_all_cases desired s) [
    | inl (bad, _) ↦ absurd (bad e)
    | inr run ↦
        rw run
          (plan_bound desired (be.list_managed s).1 plain (laws.list_valid s v) (rw (← run) e) k)
  ]

  -- Over every backend that obeys the laws, from a valid state, whatever it refuses during a
  -- pass over desired rules whose names are nonempty and without a colon: a desired key that had a
  -- managed rule still has one.
  pub reconcile_all_keeps :
      (desired : List Rule) (s : be.State)
      → All IsPlainRule desired
      → IsValid s
      → (k : Key) → has k (map key_of desired) ≡ true
      → 0 < copies k (rules s)
      → 0 < copies k (rules (reconcile_all be desired s).state)
  reconcile_all_keeps desired s plain v k w c =
      let there : 0 < copies k (rules (be.list_managed s).1) = rw laws.list_keeps c in
      elim (reconcile_all_cases desired s) [
        | inl (_, same) ↦ rw same there
        | inr run ↦
            rw run (plan_keeps desired (be.list_managed s).1 plain (laws.list_valid s v) k w there)
      ]

-- A scan of rules that are just the desired ones lists no handle to delete.
scan_settled :
    (want : List Key) (rs : List Rule) (have : List Key) (covered : List Match)
    → ((k : Key) → copies k rs ≤ (if has k want && not (has k have) then 1 else 0))
    → (scan want rs have covered).extra ≡ []
unfolding scan
scan_settled want [] have covered h = refl
scan_settled want (m ∷ rs) have covered h = ground (
  arith,
  h (key_of m),
  scan_settled want rs (key_of m ∷ have) (match_of m ∷ covered)
      (λ k. ground (arith, h k, h (key_of m))),
)

-- Where all desired keys are known already nothing is added.
add_all_settled :
    (be : FirewallBackend) (ds : List Rule) (p : AddPass be)
    → ((k : Key) → has k (map key_of ds) ≡ true → has k p.have ≡ true)
    → add_all be ds p ≡ p
unfolding add_all add_step
add_all_settled be [] p h = refl
add_all_settled be (d ∷ ds) p h =
    let same : add_step be d p ≡ p = ground (arith, h (key_of d)) in
    ap (add_all be ds) same ∙ add_all_settled be ds p (λ k e. h k (ground arith))

module _ (be : FirewallBackend) (laws : Laws be) where
  open laws use {rules, IsValid}

  -- Over a backend that obeys the laws, in a state with one managed rule for each desired key and
  -- no other, a pass whose listing succeeds changes nothing: it adds nothing, deletes nothing,
  -- reports no error and leaves the state that the listing leaves.
  pub reconcile_all_idempotent :
      (desired : List Rule) (s : be.State) (rs : List Rule)
      → (be.list_managed s).0 ≡ listed rs
      → ((k : Key) → copies k (rules s) ≡ wanted k desired)
      → reconcile_all be desired s
        ≡ record { added = 0; removed = 0; err = none; state = (be.list_managed s).1 }
  unfolding apply_plan delete_all
  reconcile_all_idempotent desired s rs l h =
      let s' = (be.list_managed s).1 in
      let plan = scan (map key_of desired) (rules s') [] [] in
      let settled : (k : Key) → copies k (rules s') ≡ wanted k desired =
        λ k. rw laws.list_keeps (h k) in
      let nothing : plan.extra ≡ [] =
        scan_settled (map key_of desired) (rules s') [] [] (λ k. ground (arith, settled k)) in
      let known : add_all be desired (start_adding be plan s') ≡ start_adding be plan s' =
        add_all_settled be desired (start_adding be plan s')
          (λ k e. ground (arith, settled k, have-scan (map key_of desired) k (rules s') [] [])) in
      run_listed be laws desired s rs l ∙ ground (arith, known, nothing)
