-- ===== src/Server/Admin.antt =====
-- The admin's handlers that change users, memberships and groups (internal/server/admin.go). A
-- path's id is `none` when malformed; the fields of a body are arguments.
pub mod Groups
pub mod Lists
use nft_okboy_fleet.Prelude.{
  Bool, true, false, not, Option, none, some, List, [], ◌∷◌, ◌++◌, if◌then◌else◌, ◌==◌,
  nat_discrete, Bool-discrete, ℤ, ℤ-discrete, keep, Text, Text-discrete,
}
use nft_okboy_fleet.Db.{User, Group, Result, ok, err, Query, DbError, not_unique, storage}
use nft_okboy_fleet.Db.Users.{
  by_id, create_user, get_user, get_user_by_username, delete_user, set_user_admin, rotate_secret,
  clear_user_state,
}
use nft_okboy_fleet.Db.Groups.{
  get_group, get_group_by_name, add_membership, remove_membership, delete_group,
}
use nft_okboy_fleet.Db.Nodes.{join}
use nft_okboy_fleet.Db.{query, read}
use nft_okboy_fleet.Db.Logs.{log_audit}
use nft_okboy_fleet.Firewall.{FirewallBackend, FwError}
use nft_okboy_fleet.Firewall.Manager.{remove_user_rules}
use nft_okboy_fleet.Firewall.Names.{valid_name}
use nft_okboy_fleet.Server.{Config, Request}
use nft_okboy_fleet.Server.Knock.{online}
use nft_okboy_fleet.Server.Totp.{admin, step_up}
use nft_okboy_fleet.Server.Maintain.{sync_guard}
use nft_okboy_fleet.Server.Handler.{
  Library, Warning, removal_failed, Response, failure, done, rotated, Handler, ◌>>=◌, ◌>>◌, pure,
  answer, require, attempt, internal, quietly, found, firewall,
}

-- A warning for the rules that could not be removed.
abbrev pub removal_warnings : List FwError → List Warning
removal_warnings [] = []
removal_warnings (e ∷ errs) = removal_failed (e ∷ errs) ∷ []

-- groupMembers: the rows of the members, one for each membership.
unfoldable pub group_members : ℤ → Query (List User)
unfolding query
group_members group_id = read (λ d.
    join (λ m. if m.group_id == group_id then keep (by_id m.user_id) d.users else []) d.memberships)

module _ (lib : Library) (cfg : Config) (be : FirewallBackend) where
  -- requireAdmin and stepUp, which every handler below starts with.
  unfoldable pub sensitive : Request → Text → Handler be User
  unfolding ◌>>=◌ ◌>>◌ admin step_up pure
  sensitive r body_code = do
    user ← admin lib cfg be r
    step_up lib cfg be r user body_code
    pure user

  abbrev pub none_found : Response
  none_found = failure 404 "User not found"

  abbrev pub no_group : Response
  no_group = failure 404 "Group not found"

  -- A row by the path's id.
  unfoldable pub target_user : Option ℤ → Handler be User
  unfolding ◌>>=◌ found internal
  target_user path_id = do
    id ← found none_found path_id
    row ← internal (get_user id)
    found none_found row

  abbrev pub create_failed : DbError → Response
  create_failed not_unique = failure 409 "already exists"
  create_failed storage = failure 500 "Internal error"

  unfoldable pub created : {A : Type 0} → Result A → Handler be A
  unfolding pure answer
  created (ok id) = pure id
  created (err e) = answer (create_failed e)

  -- `fresh` is genSecret's.
  unfoldable pub admin_create_user :
      Request → Text → Text → Text → Bool → Text → Handler be Response
  unfolding ◌>>=◌ ◌>>◌ sensitive require attempt created quietly pure
  admin_create_user r body_code username given is_admin fresh = do
    user ← sensitive r body_code
    require (not (username == [])) (failure 400 "username is required")
    require (valid_name username)
        (failure 400 "Invalid username (allowed: letters, digits, _ and -, max 64)")
    row ← attempt (create_user username (if given == [] then fresh else given) is_admin)
    id ← created row
    quietly (log_audit user.username "user_add" (username ∷ []) [] (some is_admin))
    pure (rotated id (some (if given == [] then fresh else given)) [])

  unfoldable pub admin_delete_user : Request → Text → Option ℤ → Handler be Response
  unfolding ◌>>=◌ ◌>>◌ sensitive target_user firewall internal quietly pure
  admin_delete_user r body_code path_id = do
    user ← sensitive r body_code
    target ← target_user path_id
    errs ← firewall (remove_user_rules be target.username)
    internal (delete_user target.id)
    quietly (log_audit user.username "user_del" (target.username ∷ []) [] none)
    pure (done (target.id ∷ []) (removal_warnings errs))

  unfoldable pub admin_set_admin : Request → Text → Option ℤ → Bool → Handler be Response
  unfolding ◌>>=◌ ◌>>◌ sensitive target_user internal quietly pure
  admin_set_admin r body_code path_id is_admin = do
    user ← sensitive r body_code
    target ← target_user path_id
    internal (set_user_admin target.id is_admin)
    quietly (log_audit user.username "set_admin" (target.username ∷ []) [] (some is_admin))
    pure (done (target.id ∷ []) [])

  unfoldable pub open_now : User → Group → Bool → Handler be (Unit {0})
  unfolding firewall
  open_now target group enabled = elim (online target.current_ip) [
    | none ↦ firewall (λ s. (tt, s))
    | some ip ↦ firewall (λ s. (
      tt,
      if enabled then (be.add_rule ip group.port target.username group.proto group.name s).1 else s,
    ))
  ]

  unfoldable pub admin_add_membership :
      Request → Text → Option ℤ → Option ℤ → Bool → Handler be Response
  unfolding ◌>>=◌ ◌>>◌ sensitive target_user found internal open_now quietly pure
  admin_add_membership r body_code path_id body_group enabled = do
    user ← sensitive r body_code
    target ← target_user path_id
    group_id ← found (failure 400 "group_id is required") body_group
    row ← internal (get_group group_id)
    group ← found no_group row
    internal (add_membership target.id group_id enabled)
    open_now target group enabled
    quietly (log_audit user.username "user_join" (target.username ∷ group.name ∷ []) [] none)
    pure (done (target.id ∷ group_id ∷ []) [])

  abbrev pub error_list : Option FwError → List FwError
  error_list none = []
  error_list (some e) = e ∷ []

  unfoldable pub close_now : User → Group → Handler be (List FwError)
  unfolding firewall
  close_now target group = elim (online target.current_ip) [
    | none ↦ firewall (λ s. ([], s))
    | some ip ↦ firewall (λ s.
        let (e, s') = be.remove_rule ip group.port target.username group.proto group.name s in
        (error_list e, s'))
  ]

  unfoldable pub admin_remove_membership : Request → Text → Text → Text → Handler be Response
  unfolding ◌>>=◌ ◌>>◌ sensitive found internal close_now quietly pure
  admin_remove_membership r body_code username group_name = do
    user ← sensitive r body_code
    row ← internal (get_user_by_username username)
    group_row ← internal (get_group_by_name group_name)
    target ← found none_found row
    group ← found no_group group_row
    internal (remove_membership target.id group.id)
    errs ← close_now target group
    quietly
        (log_audit user.username "remove_membership" (target.username ∷ group.name ∷ []) [] none)
    pure (done (target.id ∷ group.id ∷ []) (removal_warnings errs))

  unfoldable pub rotate : ℤ → Bool → Text → Handler be (Option Text)
  unfolding ◌>>=◌ internal pure
  rotate id false fresh = pure none
  rotate id true fresh = internal (rotate_secret id fresh) >>= λ t. pure (some fresh)

  -- The audit row for rules that could not be removed.
  unfoldable pub log_errors : Text → Text → List FwError → Handler be (Unit {0})
  unfolding quietly pure
  log_errors actor target [] = pure tt
  log_errors actor target (e ∷ errs) =
      quietly (log_audit actor "revoke_fw_error" (target ∷ []) [] none)

  unfoldable pub admin_revoke_user : Request → Text → Option ℤ → Bool → Text → Handler be Response
  unfolding ◌>>=◌ ◌>>◌ sensitive target_user firewall internal rotate log_errors quietly pure
  admin_revoke_user r body_code path_id rotating fresh = do
    user ← sensitive r body_code
    target ← target_user path_id
    errs ← firewall (remove_user_rules be target.username)
    internal (clear_user_state target.id)
    secret ← rotate target.id rotating fresh
    quietly (log_audit user.username "revoke" (target.username ∷ []) [] (some rotating))
    log_errors user.username target.username errs
    pure (rotated target.id secret (removal_warnings errs))

  -- The loop over the members of a group that is deleted.
  unfoldable pub close_members : Group → List User → Handler be (List FwError)
  unfolding ◌>>=◌ close_now pure
  close_members group [] = pure []
  close_members group (m ∷ members) = do
    errs ← close_now m group
    rest ← close_members group members
    pure (errs ++ rest)

  unfoldable pub admin_delete_group : Request → Text → Option ℤ → Handler be Response
  unfolding ◌>>=◌ ◌>>◌ sensitive found internal group_members close_members sync_guard quietly pure
  admin_delete_group r body_code path_id = do
    user ← sensitive r body_code
    id ← found no_group path_id
    row ← internal (get_group id)
    group ← found no_group row
    members ← internal (group_members id)
    errs ← close_members group members
    internal (delete_group id)
    quietly (log_audit user.username "group_del" (group.name ∷ []) [] none)
    sync_guard cfg be
    pure (done (id ∷ []) (removal_warnings errs))
