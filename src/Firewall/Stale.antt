-- ===== src/Firewall/Stale.antt =====
-- What the manager computes from the database (internal/firewall/manager.go): CheckIPAnomaly and
-- CleanupStale. The map of CleanupStale is a list of users with their enabled ports.
pub mod Addresses
mod Tests
use nft_okboy_fleet.Prelude.{
  ℕ, ◌+◌, Bool, true, false, ◌&&◌, not, Option, none, some, List, [], ◌∷◌, ◌++◌, ltb, length,
  if◌then◌else◌, ◌==◌, nat_discrete, Bool-discrete, ℤ, ℤ-discrete, any, has, Text, Text-discrete,
}
use nft_okboy_fleet.Db.{Db, User, Result, ok, err}
use nft_okboy_fleet.Db.Users.{get_user_by_username, list_users, clear_user_state}
use nft_okboy_fleet.Db.Logs.{count_recent_ip_changes, get_recent_ip_change_ips}
use nft_okboy_fleet.Firewall.{FirewallBackend}

pub record Anomaly : Type 0 where
  pub changes : ℕ
  pub window : ℕ
  pub unique_ips : ℕ
  pub ips : List Text

-- The addresses that are not empty, each once, in the order of their first appearance; `seen` is
-- the list so far.
unfoldable pub collect : List Text → List Text → List Text
unfolding has any
collect seen [] = seen
collect seen (ip ∷ ips) =
    if not (ip == []) && not (has ip seen) then collect (seen ++ ip ∷ []) ips else collect seen ips

abbrev pub current_list : Option Text → List Text
current_list none = []
current_list (some ip) = ip ∷ []

abbrev pub anomaly_of : ℕ → ℕ → User → Result (List Text) → Option Anomaly
anomaly_of changes window u (err e) = none
anomaly_of changes window u (ok ips) =
    let unique = collect (collect [] ips) (current_list u.current_ip) in
    some (record { changes = changes; window = window; unique_ips = length unique; ips = unique })

unfoldable pub check_changes : Text → ℕ → ℕ → User → Result ℕ → Db → Option Anomaly × Db
unfolding collect
check_changes user window max_changes u (err e) d = (none, d)
check_changes user window max_changes u (ok changes) d =
    if ltb changes max_changes
    then (none, d)
    else (let (ips, d') = get_recent_ip_change_ips user window d in
        (anomaly_of changes window u ips, d'))

unfoldable pub check_row : Text → ℕ → ℕ → Result (Option User) → Db → Option Anomaly × Db
unfolding check_changes
check_row user window max_changes (err e) d = (none, d)
check_row user window max_changes (ok none) d = (none, d)
check_row user window max_changes (ok (some u)) d =
    let (n, d') = count_recent_ip_changes user window d in
    check_changes user window max_changes u n d'

unfoldable pub check_ip_anomaly : Text → ℕ → ℕ → Db → Option Anomaly × Db
unfolding check_row
check_ip_anomaly user window max_changes d =
    let (row, d') = get_user_by_username user d in check_row user window max_changes row d'

-- db.GroupPort
pub record GroupPort : Type 0 where
  pub group : Text
  pub port : ℤ
  pub proto : Text

-- ugp[username]
unfoldable pub ports_of : Text → List (Text × List GroupPort) → List GroupPort
ports_of user [] = []
ports_of user ((name, ports) ∷ rest) = if name == user then ports else ports_of user rest

-- now-*u.LastKnock > int64(maxAgeSec)
abbrev pub is_idle : ℕ → ℕ → Option ℕ → Bool
is_idle now max_age none = false
is_idle now max_age (some last) = ltb (last + max_age) now

module _ (be : FirewallBackend) where
  unfoldable pub remove_ports : Text → Text → List GroupPort → be.State → be.State
  remove_ports ip user [] s = s
  remove_ports ip user (gp ∷ ports) s =
      remove_ports ip user ports (be.remove_rule ip gp.port user gp.proto gp.group s).1

  unfoldable pub expire : User → List (Text × List GroupPort) → be.State → be.State
  unfolding remove_ports ports_of
  expire u ugp s = elim u.current_ip [
    | none ↦ s
    | some ip ↦ if ip == [] then s else remove_ports ip u.username (ports_of u.username ugp) s
  ]

  -- (removed, whether a query failed) and the two states.
  abbrev pub Cleanup : Type 0
  Cleanup = (List Text × Bool) × (be.State × Db)

  -- The loop over the users; it stops at a query that fails.
  unfoldable pub cleanup_users :
      ℕ → ℕ → List (Text × List GroupPort) → List User → be.State → Db → Cleanup
  unfolding expire
  cleanup_users now max_age ugp [] s d = (([], false), (s, d))
  cleanup_users now max_age ugp (u ∷ users) s d =
      let s' = expire u ugp s in
      let (e, d') = clear_user_state u.id d in
      let skipped = cleanup_users now max_age ugp users s d in
      let ((removed, failed), states) = cleanup_users now max_age ugp users s' d' in
      if not (is_idle now max_age u.last_knock) then skipped else (elim e [
        | err e ↦ (([], true), (s', d'))
        | ok t ↦ ((u.username ∷ removed, failed), states)
      ])

  unfoldable pub cleanup_stale : ℕ → List (Text × List GroupPort) → be.State → Db → Cleanup
  unfolding cleanup_users
  cleanup_stale max_age ugp s d =
      let (users, d') = list_users d in
      elim users [
        | err e ↦ (([], true), (s, d'))
        | ok us ↦ cleanup_users d'.now max_age ugp us s d'
      ]
