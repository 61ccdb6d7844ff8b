-- ===== src/Server/Knock.antt =====
-- The client's handlers (internal/server/knock.go): knock, and the toggle of a membership.
pub mod Proven
use nft_okboy_fleet.Prelude.{
  ℕ, zero, suc, ◌+◌, ◌-◌, ◌*◌, ◌/◌, ◌%◌, ◌^◌, ◌≤◌, ◌<◌, ◌≡◌, refl, sym, ap, ◌∙◌, ◌≢◌, ◌↔◌, ◌⊎◌, inl,
  inr, Bool, true, false, ◌&&◌, ◌||◌, not, Option, none, some, List, [], ◌∷◌, ◌++◌, map, arith, ltb,
  leb, if◌then◌else◌, ◌==◌, ==_refl, nat_discrete, Bool-discrete, Bool-cases, Option-cases, is_some,
  ℤ, pos, negsuc, ℤ-discrete, pos_part, neg_part, sub_ℕ, ◌-ℤ◌, ltℤ, leℤ, wrap64, neg64, length,
  count, keep, any, null, All, All-append, has, Text, Text-discrete, text, has_prefix, strip_prefix,
  cut, count_ext, count-keep, count-le, count_mono, count-append,
}
use nft_okboy_fleet.Auth.{Message, verify_hmac, is_admin}
use nft_okboy_fleet.Db.{Db, User, Group, Result, ok, err, Query}
use nft_okboy_fleet.Db.Users.{get_user_by_username, get_user, record_ip_change, same_ip}
use nft_okboy_fleet.Db.Groups.{
  get_user_groups, set_membership_enabled, get_group, user_has_group_access,
}
use nft_okboy_fleet.Db.Logs.{log_audit}
use nft_okboy_fleet.Firewall.{FirewallBackend, FwError, PortProto, is_inactive}
use nft_okboy_fleet.Firewall.Manager.{Reconciled, reconcile}
use nft_okboy_fleet.Firewall.Stale.{Anomaly, check_ip_anomaly}
use nft_okboy_fleet.Server.{Config, Request, World, client_ip, request_ip}
use nft_okboy_fleet.Server.Handler.{
  Library, Warning, not_active, denies_address, suspicious, removal_failed, Response, failure,
  unauthorized, heartbeat, updated, done, Step, Handler, answered, next, ◌>>=◌, ◌>>◌, pure, answer,
  require, attempt, internal, quietly, found, firewall, judged,
}

-- portMap
unfoldable pub port_map : List Group → List (Text × PortProto)
port_map = map (λ g. (g.name, record { port = g.port; proto = g.proto }))

-- The warnings for the groups whose port a rule of the host's own denies.
unfoldable pub denied_warnings : List Text → List Group → List Warning
denied_warnings [] groups = []
denied_warnings (name ∷ denied) groups =
    map (λ g. denies_address g.name g.port g.proto) (keep (λ g. g.name == name) groups)
    ++ denied_warnings denied groups

abbrev pub anomaly_warnings : ℕ → Option Anomaly → List Warning
anomaly_warnings window none = []
anomaly_warnings window (some a) = suspicious a.changes a.unique_ips (window / 60) ∷ []

-- A recorded address: neither nil nor empty.
unfoldable pub online : Option Text → Option Text
online none = none
online (some ip) = if ip == [] then none else some ip

module _ (lib : Library) (cfg : Config) (be : FirewallBackend) (prefix : Text) where
  abbrev pub address : Request → Text
  address r = client_ip lib.split_host_port lib.canonical_ip lib.trim cfg r

  abbrev pub throttle_address : Request → Text
  throttle_address r = request_ip lib.split_host_port lib.canonical_ip lib.trim cfg r

  unfoldable pub auth_user : Request → Handler be Text
  unfolding judged
  auth_user r =
      judged unauthorized
        (verify_hmac lib.parse_int lib.hmac r.authorization cfg.signature_ttl (throttle_address r))

  -- The test on net.ParseIP(clientIP).
  unfoldable pub is_remote : Text → Bool
  is_remote ip = elim (lib.parse_ip ip) [
    | none ↦ false
    | some parsed ↦ not (lib.is_loopback parsed) && not (lib.is_unspecified parsed)
  ]

  -- s.fw.Reconcile
  unfoldable pub reconciled : Text → Text → List Group → Handler be (Reconciled be)
  unfolding firewall port_map
  reconciled username ip groups =
      firewall (λ s. let p = reconcile be prefix username ip (port_map groups) s in (p, p.state))

  -- s.fw.RemoveRule for each group, its errors ignored.
  unfoldable pub remove_rules : Text → Text → List Group → be.State → be.State
  remove_rules ip username [] s = s
  remove_rules ip username (g ∷ groups) s =
      remove_rules ip username groups (be.remove_rule ip g.port username g.proto g.name s).1

  unfoldable pub remove_old : Option Text → Text → List Group → Handler be (Unit {0})
  unfolding firewall remove_rules
  remove_old none username groups = firewall (λ s. (tt, s))
  remove_old (some ip) username groups = firewall (λ s. (tt, remove_rules ip username groups s))

  -- From the new address's record on.
  unfoldable pub knock_recorded :
      Text → Text → List Group → List Warning → Option Text → Handler be Response
  unfolding ◌>>=◌ ◌>>◌ pure remove_old
  knock_recorded username ip groups warnings old =
      if same_ip old ip then pure (heartbeat ip warnings) else (do
        remove_old old username groups
        anomaly ← (λ w.
            let (a, d) =
              check_ip_anomaly username cfg.anomaly_window cfg.anomaly_max_changes w.db in
            (next a, record w { db = d }))
        pure (
            updated ip old (map (λ g. g.name) groups)
              (warnings ++ anomaly_warnings cfg.anomaly_window anomaly)))

  -- From the user's row on.
  unfoldable pub knock_user : Text → Text → Option User → Handler be Response
  unfolding ◌>>=◌ ◌>>◌ found internal reconciled require
  knock_user username ip row = do
    user ← found (failure 404 "User not found") row
    groups ← internal (get_user_groups user.id true)
    rec ← reconciled username ip groups
    require (null rec.errs || any is_inactive rec.errs) (failure 500 "Firewall reconcile failed")
    old ← internal (record_ip_change user.id username ip)
    knock_recorded username ip groups
        ((if null rec.errs then [] else not_active ∷ []) ++ denied_warnings rec.denied groups) old

  -- From authentication on.
  unfoldable pub knock_as : Text → Text → Handler be Response
  unfolding ◌>>=◌ ◌>>◌ internal require
  knock_as ip username = do
    require (is_remote ip)
        (failure 400 "Cannot determine real client IP. Check Nginx X-Real-IP header.")
    row ← internal (get_user_by_username username)
    knock_user username ip row

  unfoldable pub knock : Request → Handler be Response
  unfolding ◌>>=◌ ◌>>◌ auth_user
  knock r = auth_user r >>= knock_as (address r)

  -- setMembership, for a user with a recorded address.
  unfoldable pub apply_membership : User → Group → Bool → Text → Handler be (List Warning)
  unfolding ◌>>=◌ ◌>>◌ pure attempt firewall reconciled
  apply_membership u group false ip = do
    e ← firewall (be.remove_rule ip group.port u.username group.proto group.name)
    pure (elim e [ none ↦ [] | some e ↦ removal_failed (e ∷ []) ∷ [] ])
  apply_membership u group true ip = do
    groups ← attempt (get_user_groups u.id true)
    elim groups [ err e ↦ pure [] | ok gs ↦ reconciled u.username ip gs >>= λ p. pure [] ]

  unfoldable pub sync_membership : Group → Bool → Result (Option User) → Handler be (List Warning)
  unfolding pure apply_membership
  sync_membership group enabled (err e) = pure []
  sync_membership group enabled (ok none) = pure []
  sync_membership group enabled (ok (some u)) = elim (online u.current_ip) [
    | none ↦ pure []
    | some ip ↦ apply_membership u group enabled ip
  ]

  -- An error of the database answers 500, as both callers do with it.
  unfoldable pub set_membership : ℤ → Group → Bool → Handler be (List Warning)
  unfolding ◌>>=◌ ◌>>◌ internal attempt sync_membership
  set_membership user_id group enabled = do
    internal (set_membership_enabled user_id group.id enabled)
    row ← attempt (get_user user_id)
    sync_membership group enabled row

  unfoldable pub refuse_enable : Text → ℤ → Handler be (Unit {0})
  unfolding ◌>>=◌ ◌>>◌ quietly answer
  refuse_enable username group_id = do
    quietly (log_audit username "unauthorized_reenable_attempt" [] (group_id ∷ []) none)
    answer (failure 403 "Forbidden: you may only re-enable a previously authorized group.")

  -- A user who is no admin may only enable a group of a membership they have.
  unfoldable pub may_enable : Text → ℤ → Bool → Handler be (Unit {0})
  unfolding ◌>>=◌ ◌>>◌ internal refuse_enable pure
  may_enable username group_id true = pure tt
  may_enable username group_id false = do
    allowed ← internal (user_has_group_access username group_id true)
    if allowed then pure tt else refuse_enable username group_id

  unfoldable pub check_enable : Text → ℤ → Bool → Handler be (Unit {0})
  unfolding ◌>>=◌ ◌>>◌ pure may_enable
  check_enable username group_id false w = (next tt, w)
  check_enable username group_id true w =
      let (admin, d) = is_admin lib.parse_int lib.hmac username w.db in
      may_enable username group_id admin (record w { db = d })

  -- selfToggleMembership, with the path's id and the body's flag (`none` when malformed).
  unfoldable pub self_toggle_membership : Request → Option ℤ → Option Bool → Handler be Response
  unfolding ◌>>=◌ ◌>>◌ auth_user internal found check_enable set_membership quietly pure
  self_toggle_membership r path_id flag = do
    username ← auth_user r
    row ← internal (get_user_by_username username)
    requester ← found (failure 401 "Authenticated user not found") row
    group_id ← found (failure 404 "Group not found") path_id
    enabled ← found (failure 400 "Request body must include 'enabled' (bool)") flag
    row ← internal (get_group group_id)
    group ← found (failure 404 "Group not found") row
    check_enable username group_id enabled
    warnings ← set_membership requester.id group enabled
    quietly (
        log_audit username "self_toggle_membership" [] (requester.id ∷ group_id ∷ [])
          (some enabled))
    pure (done (group_id ∷ []) warnings)
