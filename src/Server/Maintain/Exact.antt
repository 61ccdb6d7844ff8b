-- ===== src/Server/Maintain/Exact.antt =====
-- What Maintain (internal/server/maintain.go) leaves in the nftables chain.
use nft_okboy_fleet.Prelude.{
  ◌+◌, ◌≡◌, refl, sym, inl, inr, Bool, false, ◌&&◌, Option, none, List, [], map, ltb, leb,
  nat_discrete, Bool-discrete, Bool-cases, ℤ-discrete, All, Text, Text-discrete, subst,
}
use nft_okboy_fleet.Db.{Db, Group, Result, ok, err, query, read}
use nft_okboy_fleet.Db.Groups.{list_groups}
use nft_okboy_fleet.Db.Nodes.{local_rules, desired_state_local}
use nft_okboy_fleet.Firewall.{Rule, FirewallBackend, FwError, PortProto}
use nft_okboy_fleet.Firewall.Lawful.{Key, key_of}
use nft_okboy_fleet.Firewall.ReconcileAll.Exact.{copies, wanted}
use nft_okboy_fleet.Firewall.Nft.{Nft, nft_backend, ensure_base}
use nft_okboy_fleet.Firewall.Nft.Kernel.{Documented}
use nft_okboy_fleet.Firewall.Nft.Lawful.{managed}
use nft_okboy_fleet.Firewall.Nft.Apart.{managed-sync_guard}
use nft_okboy_fleet.Firewall.Nft.Runs.{Runs, Fits, base_succeeds, nft_exact}
use nft_okboy_fleet.Server.{Config, World}
use nft_okboy_fleet.Server.Handler.{Handler, continue, ◌>>=◌, ◌>>◌, pure, attempt, firewall}
use nft_okboy_fleet.Server.Handler.Frame.{bind-Keeps}
use nft_okboy_fleet.Server.Maintain.{
  ports_of_groups, rule_of, guard_ports, guard_groups, sync_guard as sync_guards, clean_hourly,
  cleanup_every, reconcile_desired, repair, after_base, maintain,
}

-- The test in front of the hourly cleanup.
abbrev pub cleanup_due : {be : FirewallBackend} → Config → World be → Bool
cleanup_due cfg w = ltb 0 cfg.cleanup_max_age_days && leb (w.last_cleanup + cleanup_every) w.db.now

read_lem {ℓ} : {A : Type ℓ} (f : Db → A) (d : Db) → d.faults ≡ [] → read f d ≡ (ok (f d), d)
unfolding query
read_lem f d e =
    subst
      (λ fs.
        read f (record d { faults = fs })
        ≡ (ok (f (record d { faults = fs })), record d { faults = fs }))
      (sym e) refl

module _ (nft : Nft) (parse_ip : Text → Option Text) (is_v4 : Text → Bool) (prefix : Text)
    (cfg : Config) where
  abbrev backend : FirewallBackend
  backend = nft_backend nft parse_ip is_v4 prefix

  module _ (doc : Documented nft) where
    abbrev chain_rules : World backend → List Rule
    chain_rules w = managed nft parse_ip is_v4 prefix (doc.chain w.fw)

    abbrev passed : Option FwError → Handler backend (Unit {0})
    passed e = pure tt

    guard_ports-keeps :
        (ports : List PortProto) (w : World backend)
        → chain_rules (guard_ports cfg backend ports w).1 ≡ chain_rules w
    unfolding guard_ports firewall
    guard_ports-keeps ports w = managed-sync_guard nft parse_ip is_v4 prefix doc ports w.fw

    guard_groups-keeps :
        (groups : Result (List Group)) (w : World backend)
        → chain_rules (guard_groups cfg backend groups w).1 ≡ chain_rules w
    unfolding guard_groups pure
    guard_groups-keeps (err e) w = refl
    guard_groups-keeps (ok groups) w =
        let ports = ports_of_groups groups in
        bind-Keeps chain_rules (guard_ports cfg backend ports) passed w (guard_ports-keeps ports w)
          (λ e. refl)

    sync_guards-keeps :
        (w : World backend) → chain_rules (sync_guards cfg backend w).1 ≡ chain_rules w
    unfolding sync_guards pure attempt
    sync_guards-keeps w = elim (Bool-cases cfg.nft_guard) [
      | inl on ↦ rw on (
          bind-Keeps chain_rules (attempt list_groups) (guard_groups cfg backend) w refl
            (λ gs. guard_groups-keeps gs _))
      | inr off ↦ rw off (
          bind-Keeps chain_rules (guard_ports cfg backend []) passed w (guard_ports-keeps [] w)
            (λ e. refl))
    ]

    -- The world once the base is there.
    abbrev based : World backend → World backend
    based w = record w { fw = (ensure_base nft parse_ip is_v4 prefix w.fw).1 }

    maintain-based :
        Runs nft parse_ip is_v4 prefix doc
        → (w : World backend) → maintain cfg backend w ≡ after_base cfg backend none (based w)
    unfolding maintain ◌>>=◌ continue firewall
    maintain-based works w = rw (base_succeeds nft parse_ip is_v4 prefix doc works w.fw) refl

    after_base_lem :
        (w : World backend)
        → cleanup_due cfg w ≡ false
        → w.db.faults ≡ []
        → after_base cfg backend none w ≡ repair cfg backend (ok (local_rules w.db)) w
    unfolding after_base ◌>>=◌ ◌>>◌ continue clean_hourly attempt desired_state_local
    after_base_lem w idle sound = rw (idle, read_lem local_rules w.db sound) refl

    repair_lem :
        Runs nft parse_ip is_v4 prefix doc
        → (w : World backend)
        → All (λ d. Fits nft parse_ip is_v4 prefix doc (key_of d)) (map rule_of (local_rules w.db))
        → (k : Key)
        → copies k (chain_rules (repair cfg backend (ok (local_rules w.db)) w).1)
          ≡ wanted k (map rule_of (local_rules w.db))
    unfolding repair reconcile_desired ◌>>=◌ ◌>>◌ continue firewall
    repair_lem works w fits k =
        rw (sync_guards-keeps _) (
          nft_exact nft parse_ip is_v4 prefix doc works (map rule_of (local_rules w.db)) w.fw fits
            k)

    -- Over nft as documented that runs what it is asked, with a database that answers, whose rows give
    -- rules that AddRule accepts with nonempty names without a colon, and outside the hourly cleanup:
    -- from any chain whatever, Maintain leaves exactly one managed rule in the chain for each rule that
    -- the database desires, and no other managed rule.
    pub maintain_exact :
        Runs nft parse_ip is_v4 prefix doc
        → (w : World backend) → cleanup_due cfg w ≡ false
        → w.db.faults ≡ []
        → All (λ d. Fits nft parse_ip is_v4 prefix doc (key_of d)) (map rule_of (local_rules w.db))
        → (k : Key)
        → copies k (chain_rules (maintain cfg backend w).1)
          ≡ wanted k (map rule_of (local_rules w.db))
    maintain_exact works w idle sound fits k =
        rw (maintain-based works w, after_base_lem (based w) idle sound)
          (repair_lem works (based w) fits k)
