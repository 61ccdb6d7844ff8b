-- ===== src/Firewall/Nft/Apart.antt =====
-- SyncGuard and EnsureBase of the nftables backend (internal/firewall/nft.go) beside its allow rules.
use nft_okboy_fleet.Prelude.{
  ◌≡◌, refl, ap, ◌∙◌, ◌⊎◌, inl, inr, Bool, true, false, Option, none, some, List, [], ◌∷◌, ◌++◌,
  map, arith, nat_discrete, Bool-discrete, Bool-cases, Option-cases, ℤ-discrete, All, Text,
  Text-discrete, text, has_prefix,
}
use nft_okboy_fleet.Firewall.{Rule, PortProto, FwError, failed}
use nft_okboy_fleet.Firewall.Comment.{managed_prefix}
use nft_okboy_fleet.Firewall.Guard.{guard_layout, guard_at_tail}
use nft_okboy_fleet.Firewall.Nft.{
  Nft, NftRule, Command, add_table, add_chain, rule_of, guard_comment, guard_rules, guard_program,
  sync_guard, sync_chain, ensure_base, list_chain, filtered,
}
use nft_okboy_fleet.Firewall.Nft.Kernel.{Documented}
use nft_okboy_fleet.Firewall.Nft.Parse.{rule_of_keeps}
use nft_okboy_fleet.Firewall.Nft.Lawful.{managed}
use nft_okboy_fleet.Firewall.Nft.Program.{in_guard, outside, Stands, guard_program_lem}

has_prefix_same : (p s t : Text) → has_prefix (p ++ s) (p ++ t) ≡ has_prefix s t
unfolding has_prefix
has_prefix_same [] s t = refl
has_prefix_same (c ∷ p) s t = ground (arith, has_prefix_same p s t)

module _ (nft : Nft) (parse_ip : Text → Option Text) (is_v4 : Text → Bool) (prefix : Text) where
  guard_unmanaged :
      has_prefix (guard_comment nft parse_ip is_v4 prefix) (managed_prefix prefix) ≡ false
  unfolding has_prefix
  guard_unmanaged = has_prefix_same prefix (text "-guard") (b':' ∷ [])

  managed-outside :
      (rs tail : List NftRule)
      → All (λ r. in_guard nft parse_ip is_v4 prefix r ≡ true) tail
      → managed nft parse_ip is_v4 prefix (outside nft parse_ip is_v4 prefix rs ++ tail)
        ≡ managed nft parse_ip is_v4 prefix rs
  unfolding filtered
  managed-outside [] [] h = refl
  managed-outside [] (r ∷ tail) h =
      ground (arith, (rule_of_keeps r).1, guard_unmanaged, h.0, managed-outside [] tail h.1)
  managed-outside (r ∷ rs) tail h =
      ground (arith, (rule_of_keeps r).1, guard_unmanaged, managed-outside rs tail h)

  pub Stands-in_guard :
      (ps : List PortProto) (rs : List NftRule)
      → Stands nft parse_ip is_v4 prefix ps rs
      → All (λ r. in_guard nft parse_ip is_v4 prefix r ≡ true) rs
  Stands-in_guard [] [] h = tt
  Stands-in_guard [] (r ∷ rs) h = elim h [ ]
  Stands-in_guard (p ∷ ps) [] h = elim h [ ]
  Stands-in_guard (p ∷ ps) (r ∷ rs) (same, h) = (ground (arith, same), Stands-in_guard ps rs h)

  module _ (doc : Documented nft) where
    abbrev synced : List PortProto → nft.Kernel → Option FwError × nft.Kernel
    synced ports s = sync_guard nft parse_ip is_v4 prefix ports s

    abbrev shown : nft.Kernel → List Rule
    shown s = map rule_of (doc.chain s)

    abbrev program : List PortProto → nft.Kernel → List Command
    program want s =
        guard_program nft parse_ip is_v4 prefix (guard_rules nft parse_ip is_v4 prefix (shown s))
          want

    abbrev pub stays : List PortProto → nft.Kernel → Bool
    stays ports s =
        guard_at_tail (shown s) (guard_rules nft parse_ip is_v4 prefix (shown s))
          (guard_layout ports)

    -- The chain that a replaced guard leaves.
    abbrev pub Replaced : List PortProto → nft.Kernel → nft.Kernel → Type 0
    Replaced ports old new =
        (tail : List NftRule) × (doc.chain new
          ≡ outside nft parse_ip is_v4 prefix (doc.chain old) ++ tail)
        × Stands nft parse_ip is_v4 prefix (guard_layout ports) tail

    sync_guard_list :
        (ports : List PortProto) (s : nft.Kernel)
        → (synced ports s ≡ (some failed, s))
          ⊎ (synced ports s ≡ sync_chain nft parse_ip is_v4 prefix (guard_layout ports) (shown s) s)
    unfolding sync_guard list_chain
    sync_guard_list ports s = elim (Option-cases (nft.list s)) [
      | inl no_list ↦ inl (ground (arith, no_list))
      | inr (raws, e) ↦ inr (ground (arith, e, doc.listing s raws e))
    ]

    sync_chain_run :
        (ports : List PortProto) (s : nft.Kernel)
        → stays ports s ≡ false
        → (((nft.run (program (guard_layout ports) s) s).0 ≡ false)
            × (sync_chain nft parse_ip is_v4 prefix (guard_layout ports) (shown s) s
                ≡ (some failed, (nft.run (program (guard_layout ports) s) s).1)))
          ⊎ (((nft.run (program (guard_layout ports) s) s).0 ≡ true)
              × (sync_chain nft parse_ip is_v4 prefix (guard_layout ports) (shown s) s
                  ≡ (none, (nft.run (program (guard_layout ports) s) s).1)))
    unfolding sync_chain
    sync_chain_run ports s h = elim (Bool-cases (nft.run (program (guard_layout ports) s) s).0) [
      | inl ran ↦ inr (ran, ground (arith, ran, h))
      | inr bad ↦ inl (bad, ground (arith, bad, h))
    ]

    -- What SyncGuard comes to: a failure that changed nothing, a guard that stays, or a new one.
    pub sync_guard-cases :
        (ports : List PortProto) (s : nft.Kernel)
        → (((synced ports s).0 ≡ some failed) × (doc.chain (synced ports s).1 ≡ doc.chain s))
          ⊎ (((synced ports s).0 ≡ none) × ((synced ports s).1 ≡ s) × (stays ports s ≡ true)
              ⊎ (((synced ports s).0 ≡ none) × Replaced ports s (synced ports s).1))
    unfolding sync_chain
    sync_guard-cases ports s = elim (sync_guard_list ports s) [
      | inl no_list ↦ inl (ap (λ x. x.0) no_list, ap (λ x. doc.chain x.1) no_list)
      | inr run ↦ elim (Bool-cases (stays ports s)) [
        | inl there ↦ inr (inl (ground (arith, run, there), ground (arith, run, there), there))
        | inr gone ↦ elim (sync_chain_run ports s gone) [
          | inl (bad, out) ↦ inl (
            ap (λ x. x.0) (run ∙ out),
            ap (λ x. doc.chain x.1) (run ∙ out)
                ∙ doc.refused (program (guard_layout ports) s) s bad,
          )
          | inr (ran, out) ↦
              let (tail, new, stands) =
                guard_program_lem nft parse_ip is_v4 prefix (guard_layout ports) (doc.chain s) _
                  (doc.handles s) (doc.applied (program (guard_layout ports) s) s ran) in
              inr (
                inr (
                  ap (λ x. x.0) (run ∙ out),
                  (tail, ap (λ x. doc.chain x.1) (run ∙ out) ∙ new, stands),
                ))
        ]
      ]
    ]

    -- Over nft as documented, SyncGuard changes no allow rule, whatever it returns.
    pub managed-sync_guard :
        (ports : List PortProto) (s : nft.Kernel)
        → managed nft parse_ip is_v4 prefix (doc.chain (synced ports s).1)
          ≡ managed nft parse_ip is_v4 prefix (doc.chain s)
    managed-sync_guard ports s = elim (sync_guard-cases ports s) [
      | inl (_, same) ↦ rw same refl
      | inr (inl (_, same, _)) ↦ rw same refl
      | inr (inr (_, (tail, new, stands))) ↦
          rw new
            (managed-outside (doc.chain s) tail (Stands-in_guard (guard_layout ports) tail stands))
    ]

    pub chain-ensure_base :
        (s : nft.Kernel) → doc.chain (ensure_base nft parse_ip is_v4 prefix s).1 ≡ doc.chain s
    unfolding ensure_base
    chain-ensure_base s = elim (Bool-cases (nft.run (add_table ∷ add_chain ∷ []) s).0) [
      | inl ran ↦ doc.applied (add_table ∷ add_chain ∷ []) s ran
      | inr bad ↦ doc.refused (add_table ∷ add_chain ∷ []) s bad
    ]
