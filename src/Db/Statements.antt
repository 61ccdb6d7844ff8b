-- ===== src/Db/Statements.antt =====
-- The writing queries of internal/db in any order.
pub mod OnUsers
pub mod OnGroups
pub mod OnNodes
pub mod Kept
use nft_okboy_fleet.Prelude.{
  ℕ, zero, suc, ◌+◌, ◌-◌, ◌*◌, ◌/◌, ◌%◌, ◌^◌, ◌≤◌, ◌<◌, ◌≡◌, refl, sym, ap, ◌∙◌, ◌≢◌, ◌↔◌, ◌⊎◌, inl,
  inr, Bool, true, false, ◌&&◌, ◌||◌, not, Option, none, some, List, [], ◌∷◌, ◌++◌, map, arith, ltb,
  leb, if◌then◌else◌, ◌==◌, ==_refl, nat_discrete, Bool-discrete, Bool-cases, Option-cases, is_some,
  ℤ, pos, negsuc, ℤ-discrete, pos_part, neg_part, sub_ℕ, ◌-ℤ◌, ltℤ, leℤ, wrap64, neg64, length,
  count, keep, any, null, All, All-append, has, Text, Text-discrete, text, has_prefix, strip_prefix,
  cut, count_ext, count-keep, count-le, count_mono, count-append,
}
use nft_okboy_fleet.Db.{find, Db, Result, ok, Reason, update}
use nft_okboy_fleet.Db.Users.{
  change_ip, claim, by_name, by_id, set_users, insert_user, create_user, delete_user,
  set_user_admin, rotate_secret, clear_user_state, set_user_ip, update_knock_time, record_ip_change,
  claim_ip, set_totp_secret, enable_totp, disable_totp, set_totp_last_counter, consume_totp_counter,
  same_ip, is_fresh,
}
use nft_okboy_fleet.Db.Groups.{
  migrate004_groups_unique, is_member, group_id_is, insert_group, create_group, delete_group,
  add_membership, remove_membership, set_membership_enabled,
}
use nft_okboy_fleet.Db.Logs.{log_audit, record_failed_attempt}
use nft_okboy_fleet.Db.Nodes.{
  null_text, is_target, node_id_is, insert_node, create_node, delete_node, touch_node,
  update_node_report, add_group_target, remove_group_target,
}
use nft_okboy_fleet.Db.Unique.{Unique, keep-Unique, update-Unique, append-Unique, keep-Named}
use nft_okboy_fleet.Db.Keys.{
  UniqueKeys, group_named, on_port, member_of, node_named, hashed, target_of, query-UniqueKeys,
  users-UniqueKeys, sets-UniqueKeys, nodes-UniqueKeys, insert_user-UniqueKeys,
  insert_group-UniqueKeys, insert_node-UniqueKeys, write-UniqueKeys,
}
use Prim.Native.String.{String}

pub data UserStatement : Type 0 where
  creates_user : Text → Text → Bool → UserStatement
  deletes_user : ℤ → UserStatement
  sets_user_admin : ℤ → Bool → UserStatement
  rotates_secret : ℤ → Text → UserStatement
  clears_user_state : ℤ → UserStatement
  sets_user_ip : ℤ → Text → UserStatement
  updates_knock_time : ℤ → Text → UserStatement
  records_ip_change : ℤ → Text → Text → UserStatement
  sets_totp_secret : ℤ → Text → UserStatement
  enables_totp : ℤ → UserStatement
  disables_totp : ℤ → UserStatement
  sets_totp_last_counter : ℤ → ℕ → UserStatement
  consumes_totp_counter : ℤ → ℤ → UserStatement

pub data GroupStatement : Type 0 where
  creates_group : Text → ℤ → Text → GroupStatement
  deletes_group : ℤ → GroupStatement
  migrates_groups : GroupStatement
  adds_membership : ℤ → ℤ → Bool → GroupStatement
  removes_membership : ℤ → ℤ → GroupStatement
  sets_membership_enabled : ℤ → ℤ → Bool → GroupStatement

pub data NodeStatement : Type 0 where
  creates_node : Text → Text → NodeStatement
  deletes_node : ℤ → NodeStatement
  touches_node : ℤ → NodeStatement
  updates_node_report : ℤ → Text → Text → NodeStatement
  adds_group_target : ℤ → ℤ → ℤ → Text → NodeStatement
  removes_group_target : ℤ → ℤ → NodeStatement

pub data Statement : Type 0 where
  on_users : UserStatement → Statement
  on_groups : GroupStatement → Statement
  on_nodes : NodeStatement → Statement
  logs_audit : Text → String → List Text → List ℤ → Option Bool → Statement
  records_failed_attempt : Option Text → Text → Reason → Statement

unfoldable pub exec_user : UserStatement → Db → Db
exec_user (creates_user name secret admin) d = (create_user name secret admin d).1
exec_user (deletes_user id) d = (delete_user id d).1
exec_user (sets_user_admin id admin) d = (set_user_admin id admin d).1
exec_user (rotates_secret id secret) d = (rotate_secret id secret d).1
exec_user (clears_user_state id) d = (clear_user_state id d).1
exec_user (sets_user_ip id ip) d = (set_user_ip id ip d).1
exec_user (updates_knock_time id ip) d = (update_knock_time id ip d).1
exec_user (records_ip_change id name ip) d = (record_ip_change id name ip d).1
exec_user (sets_totp_secret id secret) d = (set_totp_secret id secret d).1
exec_user (enables_totp id) d = (enable_totp id d).1
exec_user (disables_totp id) d = (disable_totp id d).1
exec_user (sets_totp_last_counter id last_counter) d = (set_totp_last_counter id last_counter d).1
exec_user (consumes_totp_counter id counter) d = (consume_totp_counter id counter d).1

unfoldable pub exec_group : GroupStatement → Db → Db
exec_group (creates_group name port proto) d = (create_group name port proto d).1
exec_group migrates_groups d = (migrate004_groups_unique d).1
exec_group (deletes_group id) d = (delete_group id d).1
exec_group (adds_membership user_id group_id enabled) d =
    (add_membership user_id group_id enabled d).1
exec_group (removes_membership user_id group_id) d = (remove_membership user_id group_id d).1
exec_group (sets_membership_enabled user_id group_id enabled) d =
    (set_membership_enabled user_id group_id enabled d).1

unfoldable pub exec_node : NodeStatement → Db → Db
exec_node (creates_node name hash) d = (create_node name hash d).1
exec_node (deletes_node id) d = (delete_node id d).1
exec_node (touches_node id) d = (touch_node id d).1
exec_node (updates_node_report id version backend) d = (update_node_report id version backend d).1
exec_node (adds_group_target group_id node_id port proto) d =
    (add_group_target group_id node_id port proto d).1
exec_node (removes_group_target group_id node_id) d = (remove_group_target group_id node_id d).1

unfoldable pub exec : Statement → Db → Db
unfolding exec_user exec_group exec_node
exec (on_users q) d = exec_user q d
exec (on_groups q) d = exec_group q d
exec (on_nodes q) d = exec_node q d
exec (logs_audit actor action target ids detail) d = (log_audit actor action target ids detail d).1
exec (records_failed_attempt username ip why) d = (record_failed_attempt username ip why d).1

-- The statements of a run, in their order.
unfoldable pub run : List Statement → Db → Db
unfolding exec
run [] d = d
run (q ∷ qs) d = run qs (exec q d)
