-- ===== src/Server/Toggle.antt =====
-- The toggle of another's or one's own membership (internal/server/knock.go: toggleMembership).
pub mod Access
pub mod Authorized
pub mod Permitted
use nft_okboy_fleet.Prelude.{
  Bool, true, ◌&&◌, Option, none, some, [], ◌∷◌, if◌then◌else◌, ◌==◌, nat_discrete, Bool-discrete,
  ℤ, ℤ-discrete, Text, Text-discrete,
}
use nft_okboy_fleet.Auth.{is_admin}
use nft_okboy_fleet.Db.{User, Group}
use nft_okboy_fleet.Db.Users.{get_user_by_username, get_user}
use nft_okboy_fleet.Db.Groups.{get_group, user_has_group_access}
use nft_okboy_fleet.Db.Logs.{log_audit}
use nft_okboy_fleet.Firewall.{FirewallBackend}
use nft_okboy_fleet.Server.{Config, Request}
use nft_okboy_fleet.Server.Knock.{auth_user, set_membership}
use nft_okboy_fleet.Server.Totp.{step_up}
use nft_okboy_fleet.Server.Handler.{
  Library, Response, failure, done, Handler, next, ◌>>=◌, ◌>>◌, pure, answer, require, internal,
  quietly, found,
}

module _ (lib : Library) (cfg : Config) (be : FirewallBackend) (prefix : Text) where
  -- auth.IsAdmin
  unfoldable pub asks_admin : Text → Handler be Bool
  asks_admin username w =
      let (admin, d) = is_admin lib.parse_int lib.hmac username w.db in
      (next admin, record w { db = d })

  unfoldable pub may_toggle : Text → Bool → Handler be (Unit {0})
  unfolding ◌>>=◌ asks_admin require pure
  may_toggle username is_self =
      if is_self
      then pure tt
      else (asks_admin username >>= λ admin.
          require admin (failure 403 "Forbidden: admin privileges or self-toggle required"))

  unfoldable pub refuse_reenable : Text → ℤ → ℤ → Handler be (Unit {0})
  unfolding ◌>>=◌ ◌>>◌ quietly answer
  refuse_reenable username user_id group_id = do
    quietly (log_audit username "unauthorized_reenable_attempt" [] (user_id ∷ group_id ∷ []) none)
    answer (
        failure 403
          "Forbidden: you may only re-enable a group you were previously authorized for. Ask an admin to grant access.")

  unfoldable pub check_access : Text → ℤ → ℤ → Bool → Handler be (Unit {0})
  unfolding ◌>>=◌ internal refuse_reenable pure
  check_access username user_id group_id admin =
      if admin
      then pure tt
      else (internal (user_has_group_access username group_id true) >>= λ allowed.
          if allowed then pure tt else refuse_reenable username user_id group_id)

  -- isSelf && enabled && !auth.IsAdmin(…)
  unfoldable pub check_self_enable : Text → ℤ → ℤ → Bool → Handler be (Unit {0})
  unfolding ◌>>=◌ asks_admin check_access pure
  check_self_enable username user_id group_id self_enable =
      if self_enable
      then asks_admin username >>= check_access username user_id group_id
      else pure tt

  unfoldable pub other_step_up : Request → User → Text → Bool → Handler be (Unit {0})
  unfolding step_up pure
  other_step_up r requester body_code is_self =
      if is_self then pure tt else step_up lib cfg be r requester body_code

  unfoldable pub target_group : ℤ → Handler be Group
  unfolding ◌>>=◌ internal found
  target_group group_id = internal (get_group group_id) >>= found (failure 404 "Group not found")

  unfoldable pub target_user : ℤ → Handler be User
  unfolding ◌>>=◌ internal found
  target_user user_id = internal (get_user user_id) >>= found (failure 404 "User not found")

  unfoldable pub requester_row : Text → Handler be User
  unfolding ◌>>=◌ internal found
  requester_row username =
      internal (get_user_by_username username)
      >>= found (failure 401 "Authenticated user not found")

  -- From the checks on; a path's ids and the body's flag are `none` when malformed.
  unfoldable pub apply_toggle : Text → ℤ → ℤ → Bool → Group → Handler be Response
  unfolding ◌>>=◌ ◌>>◌ set_membership quietly pure
  apply_toggle username user_id group_id enabled group = do
    warnings ← set_membership lib cfg be prefix user_id group enabled
    quietly (log_audit username "toggle_membership" [] (user_id ∷ group_id ∷ []) (some enabled))
    pure (done (user_id ∷ group_id ∷ []) warnings)

  unfoldable pub toggle_enable : Text → ℤ → ℤ → Bool → Bool → Group → Handler be Response
  unfolding ◌>>=◌ check_self_enable apply_toggle
  toggle_enable username user_id group_id is_self enabled group =
      check_self_enable username user_id group_id (is_self && enabled) >>= λ _.
      apply_toggle username user_id group_id enabled group

  unfoldable pub toggle_target : Text → ℤ → ℤ → Bool → Bool → Group → Handler be Response
  unfolding ◌>>=◌ target_user toggle_enable
  toggle_target username user_id group_id is_self enabled group =
      target_user user_id >>= λ _. toggle_enable username user_id group_id is_self enabled group

  unfoldable pub toggle_checked : Text → ℤ → ℤ → Bool → Bool → Handler be Response
  unfolding ◌>>=◌ target_group toggle_target
  toggle_checked username user_id group_id is_self enabled =
      target_group group_id >>= toggle_target username user_id group_id is_self enabled

  unfoldable pub toggle_flag : Request → User → Text → Text → ℤ → ℤ → Bool → Handler be Response
  unfolding ◌>>=◌ other_step_up toggle_checked
  toggle_flag r requester body_code username user_id group_id enabled =
      other_step_up r requester body_code (requester.id == user_id) >>= λ _.
      toggle_checked username user_id group_id (requester.id == user_id) enabled

  unfoldable pub toggle_allowed :
      Request → Option Bool → User → Text → Text → ℤ → ℤ → Handler be Response
  unfolding ◌>>=◌ found toggle_flag
  toggle_allowed r flag requester body_code username user_id group_id =
      found (failure 400 "Request body must include 'enabled' (bool)") flag
      >>= toggle_flag r requester body_code username user_id group_id

  unfoldable pub toggle_ids :
      Request → Option Bool → User → Text → Text → ℤ → ℤ → Handler be Response
  unfolding ◌>>=◌ may_toggle toggle_allowed
  toggle_ids r flag requester body_code username user_id group_id =
      may_toggle username (requester.id == user_id) >>= λ _.
      toggle_allowed r flag requester body_code username user_id group_id

  unfoldable pub toggle_as :
      Request → Option ℤ → Option ℤ → Option Bool → Text → Text → User → Handler be Response
  unfolding answer toggle_ids
  toggle_as r (some user_id) (some group_id) flag body_code username requester =
      toggle_ids r flag requester body_code username user_id group_id
  toggle_as r none path_group flag body_code username requester =
      answer (failure 404 "User not found")
  toggle_as r (some user_id) none flag body_code username requester =
      answer (failure 404 "User not found")

  unfoldable pub toggle_user :
      Request → Option ℤ → Option ℤ → Option Bool → Text → Text → Handler be Response
  unfolding ◌>>=◌ requester_row toggle_as
  toggle_user r path_user path_group flag body_code username =
      requester_row username >>= toggle_as r path_user path_group flag body_code username

  unfoldable pub toggle_membership :
      Request → Option ℤ → Option ℤ → Option Bool → Text → Handler be Response
  unfolding ◌>>=◌ auth_user toggle_user
  toggle_membership r path_user path_group flag body_code =
      auth_user lib cfg be prefix r >>= toggle_user r path_user path_group flag body_code
