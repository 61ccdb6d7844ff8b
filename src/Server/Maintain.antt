-- ===== src/Server/Maintain.antt =====
-- Maintain and the guard (internal/server/maintain.go). Log lines are left out.
pub mod Exact
use nft_okboy_fleet.Prelude.{
  ℕ, ◌+◌, ◌*◌, ◌&&◌, Option, none, some, List, [], map, ltb, leb, if◌then◌else◌, ◌==◌, nat_discrete,
  Bool-discrete, pos, ℤ-discrete, keep, Text, Text-discrete,
}
use nft_okboy_fleet.Db.{Group, Result, ok, err, Query, query, read}
use nft_okboy_fleet.Db.Groups.{list_groups, group_id_is}
use nft_okboy_fleet.Db.Nodes.{desired_state_local, DesiredRule, join}
use nft_okboy_fleet.Firewall.{FirewallBackend, FwError, Rule, PortProto}
use nft_okboy_fleet.Firewall.ReconcileAll.{reconcile_all}
use nft_okboy_fleet.Firewall.Stale.{GroupPort, cleanup_stale}
use nft_okboy_fleet.Server.{Config}
use nft_okboy_fleet.Server.Handler.{Handler, next, ◌>>=◌, ◌>>◌, pure, attempt, firewall}

abbrev pub cleanup_every : ℕ
cleanup_every = 3600

abbrev pub ports_of_groups : List Group → List PortProto
ports_of_groups = map (λ g. record { port = g.port; proto = g.proto })

-- GetAllUserGroupPorts: each user with their enabled groups' ports.
unfoldable pub get_all_user_group_ports : Query (List (Text × List GroupPort))
unfolding query
get_all_user_group_ports = read (λ d.
    map
      (λ u. (
        u.username,
        join
            (λ m.
              if (m.user_id == u.id) && m.enabled
              then map (λ g. record { group = g.name; port = g.port; proto = g.proto })
                  (keep (group_id_is m.group_id) d.groups)
              else [])
            d.memberships,
      ))
      d.users)

-- firewall.Rule{IP, Port, Proto, User, Group}, the other fields zero.
abbrev pub rule_of : DesiredRule → Rule
rule_of d = record {
  handle = pos 0;
  ip = d.ip;
  port = d.port;
  proto = d.proto;
  user = d.user;
  group = d.group;
  comment = [];
}

module _ (cfg : Config) (be : FirewallBackend) where
  -- Manager.SyncGuard
  unfoldable pub guard_ports : List PortProto → Handler be (Option FwError)
  unfolding firewall
  guard_ports ports = elim be.sync_guard [
    | none ↦ firewall (λ s. (none, s))
    | some sync ↦ firewall (sync ports)
  ]

  unfoldable pub guard_groups : Result (List Group) → Handler be (Unit {0})
  unfolding ◌>>=◌ guard_ports pure
  guard_groups (err e) = pure tt
  guard_groups (ok groups) = guard_ports (ports_of_groups groups) >>= λ e. pure tt

  -- syncGuard; its callers only log the error.
  unfoldable pub sync_guard : Handler be (Unit {0})
  unfolding ◌>>=◌ guard_ports guard_groups attempt pure
  sync_guard =
      if cfg.nft_guard
      then (attempt list_groups >>= guard_groups)
      else (guard_ports [] >>= λ e. pure tt)

  unfoldable pub clean_idle : Result (List (Text × List GroupPort)) → Handler be (Unit {0})
  clean_idle (err e) w = (next tt, w)
  clean_idle (ok ugp) w =
      let (out, (s, d)) = cleanup_stale be (cfg.cleanup_max_age_days * 86400) ugp w.fw w.db in
      (next tt, record w { fw = s; db = d })

  unfoldable pub clean_hourly : Handler be (Unit {0})
  unfolding ◌>>=◌ clean_idle attempt
  clean_hourly w =
      if ltb 0 cfg.cleanup_max_age_days && leb (w.last_cleanup + cleanup_every) w.db.now
      then (attempt get_all_user_group_ports >>= clean_idle) (record w { last_cleanup = w.db.now })
      else (next tt, w)

  -- s.fw.ReconcileAll(rules), whose outcome is only logged.
  unfoldable pub reconcile_desired : List DesiredRule → Handler be (Unit {0})
  unfolding firewall
  reconcile_desired desired = firewall (λ s. (tt, (reconcile_all be (map rule_of desired) s).state))

  unfoldable pub repair : Result (List DesiredRule) → Handler be (Unit {0})
  unfolding ◌>>=◌ ◌>>◌ reconcile_desired sync_guard pure
  repair (err e) = pure tt
  repair (ok desired) = do reconcile_desired desired; sync_guard

  unfoldable pub after_base : Option FwError → Handler be (Unit {0})
  unfolding ◌>>=◌ ◌>>◌ clean_hourly repair attempt pure
  after_base (some e) = pure tt
  after_base none = do clean_hourly; desired ← attempt desired_state_local; repair desired

  unfoldable pub maintain : Handler be (Unit {0})
  unfolding ◌>>=◌ after_base firewall
  maintain = firewall be.ensure_base >>= after_base
