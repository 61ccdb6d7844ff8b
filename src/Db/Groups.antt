-- ===== src/Db/Groups.antt =====
-- Groups and memberships (internal/db/db.go).
use nft_okboy_fleet.Prelude.{
  ◌+◌, Bool, ◌&&◌, ◌||◌, not, Option, List, [], ◌∷◌, ◌++◌, map, if◌then◌else◌, ◌==◌, nat_discrete,
  Bool-discrete, ℤ, pos, ℤ-discrete, keep, any, ltb, count, Text, Text-discrete,
}
use nft_okboy_fleet.Db.{
  Group, Membership, Db, not_unique, ok, err, Query, query, read, write, find, update, Result, true,
}
use nft_okboy_fleet.Db.Users.{by_name}

abbrev pub group_id_is : ℤ → Group → Bool
group_id_is id g = g.id == id

abbrev pub same_port : ℤ → Text → Group → Bool
same_port port proto g = (g.port == port) && (g.proto == proto)

-- SELECT … GROUP BY port, proto HAVING COUNT(*) > 1 has a row
abbrev pub has_duplicates : List Group → Bool
has_duplicates groups = any (λ g. ltb 1 (count (same_port g.port g.proto) groups)) groups

-- migrate004GroupsUnique on a table with both columns. The migration is one transaction, with one
-- fault.
unfoldable pub migrate004_groups_unique : Query (Unit {0})
unfolding query
migrate004_groups_unique =
    write (λ d. if has_duplicates d.groups then d else record d { ports_unique = true })

-- UNIQUE (name) of groups, and the index on (port, proto) where there is one
abbrev pub group_taken : Text → ℤ → Text → Db → Bool
group_taken name port proto d =
    any (λ g. (g.name == name) || (d.ports_unique && ((g.port == port) && (g.proto == proto))))
      d.groups

-- INSERT INTO groups
abbrev pub insert_group : Text → ℤ → Text → Db → Result ℤ × Db
insert_group name port proto d = if group_taken name port proto d then (err not_unique, d) else (
  ok (pos (d.next_group + 1)),
  record d {
    next_group = d.next_group + 1;
    groups =
        d.groups
        ++ record { id = pos (d.next_group + 1); name = name; port = port; proto = proto } ∷ [];
  },
)

unfoldable pub create_group : Text → ℤ → Text → Query ℤ
unfolding query
create_group name port proto = query (insert_group name port proto)

unfoldable pub get_group : ℤ → Query (Option Group)
unfolding query
get_group id = read (λ d. find (group_id_is id) d.groups)

unfoldable pub get_group_by_name : Text → Query (Option Group)
unfolding query
get_group_by_name name = read (λ d. find (λ g. g.name == name) d.groups)

unfoldable pub list_groups : Query (List Group)
unfolding query
list_groups = read (λ d. d.groups)

-- DELETE FROM groups, which cascades to the memberships and the targets
unfoldable pub delete_group : ℤ → Query (Unit {0})
unfolding query
delete_group id = write (λ d. record d {
  groups = keep (λ g. not (group_id_is id g)) d.groups;
  memberships = keep (λ m. not (m.group_id == id)) d.memberships;
  group_targets = keep (λ t. not (t.group_id == id)) d.group_targets;
})

abbrev pub is_member : ℤ → ℤ → Membership → Bool
is_member user_id group_id m = (m.user_id == user_id) && (m.group_id == group_id)

-- INSERT … ON CONFLICT DO UPDATE
unfoldable pub add_membership : ℤ → ℤ → Bool → Query (Unit {0})
unfolding query
add_membership user_id group_id enabled = write (λ d. record d {
  memberships =
      if any (is_member user_id group_id) d.memberships
      then update (is_member user_id group_id) (λ m. record m { enabled = enabled }) d.memberships
      else d.memberships
        ++ record { user_id = user_id; group_id = group_id; enabled = enabled } ∷ [];
})

unfoldable pub remove_membership : ℤ → ℤ → Query (Unit {0})
unfolding query
remove_membership user_id group_id =
    write
      (λ d. record d { memberships = keep (λ m. not (is_member user_id group_id m)) d.memberships })

unfoldable pub set_membership_enabled : ℤ → ℤ → Bool → Query (Unit {0})
unfolding query
set_membership_enabled user_id group_id enabled = write (λ d. record d {
  memberships =
      update (is_member user_id group_id) (λ m. record m { enabled = enabled }) d.memberships;
})

-- The join of GetUserGroups: groups in the order of their ids, which is that of the table.
abbrev pub joined : ℤ → Bool → List Membership → Group → Bool
joined user_id only_enabled ms g =
    any (λ m. is_member user_id g.id m && (not only_enabled || m.enabled)) ms

unfoldable pub get_user_groups : ℤ → Bool → Query (List Group)
unfolding query
get_user_groups user_id only_enabled =
    read (λ d. keep (joined user_id only_enabled d.memberships) d.groups)

abbrev pub has_access : Db → Text → ℤ → Bool → Bool
has_access d username group_id allow_reenable =
    any
      (λ m.
        any (λ u. by_name username u && is_member u.id group_id m) d.users
        && (allow_reenable || m.enabled))
      d.memberships

unfoldable pub user_has_group_access : Text → ℤ → Bool → Query Bool
unfolding query
user_has_group_access username group_id allow_reenable =
    read (λ d. has_access d username group_id allow_reenable)

unfoldable pub get_group_by_port_proto : ℤ → Text → Query (Option Group)
unfolding query
get_group_by_port_proto port proto =
    read (λ d. find (λ g. (g.port == port) && (g.proto == proto)) d.groups)

pub record UserGroupState : Type 0 where
  pub id : ℤ
  pub name : Text
  pub port : ℤ
  pub proto : Text
  pub is_member : Bool
  pub enabled : Bool

-- The loop over the groups, with the maps `present` and `enabled` as tests on the user's rows.
abbrev pub group_state : ℤ → List Membership → Group → UserGroupState
group_state user_id ms g = record {
  id = g.id;
  name = g.name;
  port = g.port;
  proto = g.proto;
  is_member = any (is_member user_id g.id) ms;
  enabled = any (λ m. is_member user_id g.id m && m.enabled) ms;
}

-- The rows of user_group_membership, then ListGroups.
unfoldable pub group_states : ℤ → Result (List Membership) → Query (List UserGroupState)
unfolding query
group_states user_id (err e) d = (err e, d)
group_states user_id (ok ms) d = read (λ d. map (group_state user_id ms) d.groups) d

unfoldable pub user_group_states : ℤ → Query (List UserGroupState)
unfolding query group_states
user_group_states user_id d =
    let (rows, d') = read (λ d. keep (λ m. m.user_id == user_id) d.memberships) d in
    group_states user_id rows d'
