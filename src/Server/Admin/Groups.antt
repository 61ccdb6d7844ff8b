-- ===== src/Server/Admin/Groups.antt =====
-- The creation of a group (internal/server/admin.go: adminCreateGroup).
use nft_okboy_fleet.Prelude.{
  Bool, true, false, ◌&&◌, not, Option, none, some, [], ◌∷◌, if◌then◌else◌, ◌==◌, nat_discrete,
  Bool-discrete, ℤ, ℤ-discrete, null, has, Text, Text-discrete,
}
use nft_okboy_fleet.Db.{User, Group, not_unique, storage, Result, ok, err}
use nft_okboy_fleet.Db.Groups.{get_group_by_port_proto, create_group}
use nft_okboy_fleet.Db.Logs.{log_audit}
use nft_okboy_fleet.Firewall.{FirewallBackend, port_in_range, known_proto, tcp}
use nft_okboy_fleet.Firewall.Names.{valid_name}
use nft_okboy_fleet.Server.{Config, Request}
use nft_okboy_fleet.Server.Maintain.{sync_guard}
use nft_okboy_fleet.Server.Admin.{sensitive}
use nft_okboy_fleet.Server.Handler.{
  Library, Response, failure, group_created, Handler, ◌>>=◌, ◌>>◌, pure, answer, require, attempt,
  quietly, found,
}

-- The answer to a duplicate of a port and protocol, in front of the insertion.
abbrev pub is_duplicate : Result (Option Group) → Bool
is_duplicate (err e) = false
is_duplicate (ok none) = false
is_duplicate (ok (some g)) = true

module _ (lib : Library) (cfg : Config) (be : FirewallBackend) where
  -- The whitelist of ports, which is enforced when it is not empty.
  unfoldable pub check_allowed : User → Text → ℤ → Handler be (Unit {0})
  unfolding ◌>>=◌ ◌>>◌ quietly answer pure
  check_allowed user name port =
      if not (null cfg.allowed_ports) && not (has port cfg.allowed_ports)
      then (do
        quietly (log_audit user.username "group_add_denied" (name ∷ []) (port ∷ []) none)
        answer (failure 400 "Port is not in the allowed_ports whitelist"))
      else pure tt

  -- The answer to an error of the insertion, which names the constraint.
  unfoldable pub inserted : ℤ → Text → Result ℤ → Handler be ℤ
  unfolding ◌>>=◌ pure answer attempt
  inserted port proto (ok id) = pure id
  inserted port proto (err storage) = answer (failure 500 "Internal error")
  inserted port proto (err not_unique) = attempt (get_group_by_port_proto port proto) >>= λ dup.
      answer (
        failure 409 (if is_duplicate dup then "Port is already in use" else "Group already exists"))

  -- From the fields of the body on.
  unfoldable pub create_checked : User → Text → ℤ → Text → Handler be Response
  unfolding ◌>>=◌ ◌>>◌ require check_allowed attempt inserted quietly sync_guard pure
  create_checked user name port proto = do
    require (port_in_range port) (failure 400 "port out of range (1-65535)")
    require (known_proto proto) (failure 400 "proto must be tcp or udp")
    check_allowed user name port
    require (valid_name name) (failure 400 "Invalid group name")
    dup ← attempt (get_group_by_port_proto port proto)
    require (not (is_duplicate dup)) (failure 409 "Port is already used by another group")
    row ← attempt (create_group name port proto)
    id ← inserted port proto row
    quietly (log_audit user.username "group_add" (name ∷ proto ∷ []) (port ∷ []) none)
    sync_guard cfg be
    pure (group_created id name port proto)

  -- `port` is `none` when the body has none or null, `some none` when it is no integer.
  unfoldable pub admin_create_group :
      Request → Text → Text → Option (Option ℤ) → Text → Handler be Response
  unfolding ◌>>=◌ ◌>>◌ sensitive require found create_checked
  admin_create_group r body_code name port proto = do
    user ← sensitive lib cfg be r body_code
    require (not (name == [])) (failure 400 "name and port are required")
    given ← found (failure 400 "name and port are required") port
    number ← found (failure 400 "port must be an integer") given
    create_checked user name number (if proto == [] then tcp else proto)
