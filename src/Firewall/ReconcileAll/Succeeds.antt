-- ===== src/Firewall/ReconcileAll/Succeeds.antt =====
-- ReconcileAll (internal/firewall/firewall.go) over a backend whose operations do not fail.
use nft_okboy_fleet.Prelude.{
  ◌≤◌, ◌≡◌, refl, inl, inr, Bool, ◌&&◌, ◌||◌, not, none, List, [], ◌∷◌, map, arith, ◌==◌,
  nat_discrete, Bool-discrete, Bool-cases, ℤ, ℤ-discrete, count, All, has, Text-discrete, count_ext,
  subst,
}
use nft_okboy_fleet.Firewall.{Rule, FirewallBackend, listed}
use nft_okboy_fleet.Firewall.Lawful.{
  Key, Key-discrete, key_of, by_handle, Laws, IsPlainKey, Removes,
}
use nft_okboy_fleet.Firewall.ReconcileAll.{
  Match, match_of, scan, AddPass, add_step, after_add, add_all, DeletePass, delete_step, delete_all,
  apply_plan, reconcile_all, start_adding, start_deleting, Match-discrete,
}
use nft_okboy_fleet.Firewall.ReconcileAll.Exact.{run_listed}

module _ (be : FirewallBackend) (laws : Laws be) (Fits : Key → Type 0) where
  open laws use {rules, IsValid}

  -- The listing works, a rule that fits can be added, and a handle that a rule has be deleted.
  pub record Available : Type 0 where
    pub plain : (k : Key) → Fits k → IsPlainKey k
    pub lists : (s : be.State) → IsValid s → (rs : List Rule) × ((be.list_managed s).0 ≡ listed rs)
    pub adds :
        (k : Key) (s : be.State)
        → IsValid s
        → Fits k
        → (be.add_rule k.ip k.port k.user k.proto k.group s).0 ≡ none
    pub deletes :
        (h : ℤ) (s : be.State)
        → IsValid s
        → 1 ≤ count (by_handle h) (rules s)
        → (be.delete_by_handle h s).0 ≡ none

  -- The second state has every rule of the first.
  abbrev Keeps : be.State → be.State → Type 0
  Keeps s t = (q : Rule → Bool) → count q (rules s) ≤ count q (rules t)

  module _ (works : Available) where
    abbrev WellAdded : be.State → AddPass be → Type 0
    WellAdded s p = (p.err ≡ none) × IsValid p.state × Keeps s p.state

    add_step-succeeds :
        (d : Rule) (s : be.State) (p : AddPass be)
        → Fits (key_of d)
        → WellAdded s p
        → WellAdded s (add_step be d p)
    unfolding add_step after_add key_of
    add_step-succeeds d s p fits (fine, v, more) =
        let k = key_of d in
        let done : (be.add_rule d.ip d.port d.user d.proto d.group p.state).0 ≡ none =
          works.adds k p.state v fits in
        let added = laws.add_done k p.state (works.plain k fits) v done in
        elim (Bool-cases (has k p.have || (be.merges_same_match && has (match_of d) p.covered))) [
          | inl skips ↦ rw skips (fine, v, more)
          | inr adds ↦
              rw (adds, done)
                (fine, laws.add_valid k p.state v, λ q. omega (arith, more q, added.counts q))
        ]

    add_all-succeeds :
        (ds : List Rule) (s : be.State) (p : AddPass be)
        → All (λ d. Fits (key_of d)) ds
        → WellAdded s p
        → WellAdded s (add_all be ds p)
    unfolding add_all
    add_all-succeeds [] s p fits well = well
    add_all-succeeds (d ∷ ds) s p fits well =
        add_all-succeeds ds s (add_step be d p) fits.1 (add_step-succeeds d s p fits.0 well)

    -- Every handle of the list is that of a rule, and listed as often at most.
    abbrev Present : List ℤ → be.State → Type 0
    Present hs s = (h : ℤ) → count (λ x. x == h) hs ≤ count (by_handle h) (rules s)

    others :
        (h : ℤ) (hs : List ℤ) (old new : List Rule)
        → ((g : ℤ) → count (λ x. x == g) (h ∷ hs) ≤ count (by_handle g) old)
        → Removes h old new
        → count (by_handle h) old ≤ 1
        → (g : ℤ) → count (λ x. x == g) hs ≤ count (by_handle g) new
    others h hs old new there gone single g = elim (ℤ-discrete h g) [
      | yes e ↦
          subst (λ g. count (λ x. x == g) hs ≤ count (by_handle g) new) e
            (ground (arith, there h, single))
      | no n ↦
          let apart =
            count_ext (λ r. by_handle g r && not (by_handle h r)) (by_handle g) old
              (λ r. ground arith) in
          ground (arith, there g, gone (by_handle g), apart)
    ]

    delete_all-succeeds :
        (hs : List ℤ) (p : DeletePass be)
        → p.err ≡ none
        → IsValid p.state
        → Present hs p.state
        → (delete_all be hs p).err ≡ none
    unfolding delete_all delete_step
    delete_all-succeeds [] p fine v there = fine
    delete_all-succeeds (h ∷ hs) p fine v there =
        let done = works.deletes h p.state v (ground (arith, there h)) in
        let gone = laws.delete_done h p.state v done in
        let after : (delete_step be h p).state ≡ (be.delete_by_handle h p.state).1 =
          ground (arith, done) in
        delete_all-succeeds hs (delete_step be h p) (ground (arith, fine, done))
          (rw after (laws.delete_valid h p.state v))
          (rw after (others h hs (rules p.state) _ there gone (laws.unique p.state v h)))

    scan-handles :
        (want : List Key) (rs : List Rule) (have : List Key) (covered : List Match) (h : ℤ)
        → count (λ x. x == h) (scan want rs have covered).extra ≤ count (by_handle h) rs
    unfolding scan
    scan-handles want [] have covered h = omega arith
    scan-handles want (m ∷ rs) have covered h = ground (
      arith,
      scan-handles want rs (key_of m ∷ have) (match_of m ∷ covered) h,
      scan-handles want rs have covered h,
    )

    plan_succeeds :
        (desired : List Rule) (s : be.State)
        → All (λ d. Fits (key_of d)) desired
        → IsValid s
        → (apply_plan be desired (scan (map key_of desired) (rules s) [] []) s).err ≡ none
    unfolding apply_plan
    plan_succeeds desired s fits v =
        let plan = scan (map key_of desired) (rules s) [] [] in
        let (fine, valid, more) =
          add_all-succeeds desired s (start_adding be plan s) fits (refl, v, λ q. omega arith) in
        let adds = add_all be desired (start_adding be plan s) in
        delete_all-succeeds plan.extra (start_deleting be adds) fine valid (λ h.
          omega (arith, scan-handles (map key_of desired) (rules s) [] [] h, more (by_handle h)))

    -- Over a backend that obeys the laws and whose operations do not fail on what is there or fits,
    -- ReconcileAll reports no error.
    pub reconcile_all-succeeds :
        (desired : List Rule) (s : be.State)
        → All (λ d. Fits (key_of d)) desired
        → IsValid s
        → (reconcile_all be desired s).err ≡ none
    reconcile_all-succeeds desired s fits v =
        let (rs, listing) = works.lists s v in
        rw (run_listed be laws desired s rs listing)
          (plan_succeeds desired (be.list_managed s).1 fits (laws.list_valid s v))
