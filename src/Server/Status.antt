-- ===== src/Server/Status.antt =====
-- What a client reads of its own state (internal/server/knock.go: status, myGroups).
use nft_okboy_fleet.Prelude.{
  Bool, true, false, Option, none, some, List, [], ◌∷◌, map, if◌then◌else◌, ◌==◌, nat_discrete,
  Bool-discrete, ℤ, ℤ-discrete, keep, Text, Text-discrete,
}
use nft_okboy_fleet.Db.{Db, User, Group, Result, ok, err, query, read}
use nft_okboy_fleet.Db.Users.{get_user_by_username}
use nft_okboy_fleet.Db.Groups.{get_user_groups, group_id_is}
use nft_okboy_fleet.Db.Logs.{count_recent_ip_changes}
use nft_okboy_fleet.Db.Nodes.{join}
use nft_okboy_fleet.Firewall.{FirewallBackend}
use nft_okboy_fleet.Firewall.Guard.{text_lt}
use nft_okboy_fleet.Server.{Config, Request}
use nft_okboy_fleet.Server.Knock.{auth_user}
use nft_okboy_fleet.Server.Handler.{
  Library, Response, failure, state_of, groups_of, Handler, ◌>>=◌, pure, attempt, internal, found,
}

-- A result whose error the handler passes over.
abbrev pub ok_or {ℓ} : {A : Type ℓ} → A → Result A → A
ok_or a (ok b) = b
ok_or a (err e) = a

-- ORDER BY g.name: the names of groups are distinct.
unfoldable pub insert_named : Group × Bool → List (Group × Bool) → List (Group × Bool)
insert_named p [] = p ∷ []
insert_named p (q ∷ qs) = if text_lt p.0.name q.0.name then p ∷ q ∷ qs else q ∷ insert_named p qs

unfoldable pub sort_named : List (Group × Bool) → List (Group × Bool)
unfolding insert_named
sort_named [] = []
sort_named (p ∷ ps) = insert_named p (sort_named ps)

-- The JOIN of myGroups.
unfoldable pub my_rows : ℤ → Db → List (Group × Bool)
unfolding sort_named
my_rows user_id d = sort_named (
    join
      (λ m.
        if m.user_id == user_id
        then map (λ g. (g, m.enabled)) (keep (group_id_is m.group_id) d.groups)
        else [])
      d.memberships)

module _ (lib : Library) (cfg : Config) (be : FirewallBackend) (prefix : Text) where
  -- The defaults of an unknown user, and a user's state.
  unfoldable pub state_report : Text → Option User → Handler be Response
  unfolding ◌>>=◌ attempt pure
  state_report username none = pure (
      state_of (record {
        username = username;
        is_admin = false;
        totp_enabled = false;
        enabled_groups = [];
        ip = none;
        last_knock = none;
        ip_changes_recent = 0;
      }))
  state_report username (some user) = do
    changes ← attempt (count_recent_ip_changes username 86400)
    groups ← attempt (get_user_groups user.id true)
    pure (
        state_of (record {
          username = username;
          is_admin = user.is_admin;
          totp_enabled = user.totp_enabled;
          enabled_groups = ok_or [] groups;
          ip = user.current_ip;
          last_knock = user.last_knock;
          ip_changes_recent = ok_or 0 changes;
        }))

  unfoldable pub status : Request → Handler be Response
  unfolding ◌>>=◌ auth_user internal state_report
  status r = do
    username ← auth_user lib cfg be prefix r
    row ← internal (get_user_by_username username)
    state_report username row

  unfoldable pub my_groups : Request → Handler be Response
  unfolding ◌>>=◌ auth_user internal found query my_rows pure
  my_groups r = do
    username ← auth_user lib cfg be prefix r
    row ← internal (get_user_by_username username)
    user ← found (failure 404 "User not found") row
    groups ← internal (read (my_rows user.id))
    pure (groups_of username groups)
