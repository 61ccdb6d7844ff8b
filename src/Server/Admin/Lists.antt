-- ===== src/Server/Admin/Lists.antt =====
-- The admin's listings (internal/server/admin.go): users, a user's groups, groups, the audit log.
use nft_okboy_fleet.Prelude.{
  ℕ, Option, none, some, [], map, if◌then◌else◌, ◌==◌, nat_discrete, Bool-discrete, ℤ, pos,
  ℤ-discrete, pos_part, ltℤ, Text, Text-discrete,
}
use nft_okboy_fleet.Db.{User}
use nft_okboy_fleet.Db.Users.{list_users}
use nft_okboy_fleet.Db.Groups.{list_groups, user_group_states}
use nft_okboy_fleet.Db.Logs.{list_audit}
use nft_okboy_fleet.Firewall.{FirewallBackend}
use nft_okboy_fleet.Server.{Config, Request}
use nft_okboy_fleet.Server.Totp.{admin}
use nft_okboy_fleet.Server.Admin.{target_user}
use nft_okboy_fleet.Server.Handler.{
  Library, Response, PublicUser, users_listed, states_listed, groups_listed, audit_listed, Handler,
  ◌>>=◌, ◌>>◌, pure, internal,
}

-- userPublic
abbrev pub user_public : User → PublicUser
user_public u = record {
  id = u.id;
  username = u.username;
  is_admin = u.is_admin;
  current_ip = u.current_ip;
  last_knock = u.last_knock;
  totp_enabled = u.totp_enabled;
  totp_last_counter = u.totp_last_counter;
}

-- The limit of adminListAudit: `raw` is the query's parameter, "" without it.
abbrev pub wanted_entries : Option ℤ → ℤ
wanted_entries none = pos 100
wanted_entries (some n) = if n == pos 0 then pos 100 else n

unfoldable pub clamp : ℤ → ℕ
clamp n = if ltℤ n (pos 1) then 1 else if ltℤ (pos 1000) n then 1000 else pos_part n

unfoldable pub audit_limit : (Text → Option ℤ) → Text → ℕ
unfolding clamp
audit_limit atoi raw = clamp (if raw == [] then pos 100 else wanted_entries (atoi raw))

module _ (lib : Library) (cfg : Config) (be : FirewallBackend) where
  unfoldable pub admin_list_users : Request → Handler be Response
  unfolding ◌>>=◌ ◌>>◌ admin internal pure
  admin_list_users r = do
    admin lib cfg be r
    rows ← internal list_users
    pure (users_listed (map user_public rows))

  unfoldable pub admin_user_groups : Request → Option ℤ → Handler be Response
  unfolding ◌>>=◌ ◌>>◌ admin target_user internal pure
  admin_user_groups r path_id = do
    admin lib cfg be r
    target ← target_user lib cfg be path_id
    states ← internal (user_group_states target.id)
    pure (states_listed target.id states)

  unfoldable pub admin_list_groups : Request → Handler be Response
  unfolding ◌>>=◌ ◌>>◌ admin internal pure
  admin_list_groups r = do
    admin lib cfg be r
    groups ← internal list_groups
    pure (groups_listed groups)

  unfoldable pub admin_list_audit : Request → Text → Handler be Response
  unfolding ◌>>=◌ ◌>>◌ admin internal audit_limit pure
  admin_list_audit r raw = do
    admin lib cfg be r
    entries ← internal (list_audit (audit_limit lib.atoi raw))
    pure (audit_listed entries)
