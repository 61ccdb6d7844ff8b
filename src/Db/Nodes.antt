-- ===== src/Db/Nodes.antt =====
-- Nodes, targets and the desired state of each firewall (internal/db/nodes.go).
pub mod Desired
pub mod Complete
use nft_okboy_fleet.Prelude.{
  ℕ, zero, suc, ◌+◌, ◌-◌, ◌*◌, ◌/◌, ◌%◌, ◌^◌, ◌≤◌, ◌<◌, ◌≡◌, refl, sym, ap, ◌∙◌, ◌≢◌, ◌↔◌, ◌⊎◌, inl,
  inr, Bool, true, false, ◌&&◌, ◌||◌, not, Option, none, some, List, [], ◌∷◌, ◌++◌, map, arith, ltb,
  leb, if◌then◌else◌, ◌==◌, ==_refl, nat_discrete, Bool-discrete, Bool-cases, Option-cases, is_some,
  ℤ, pos, negsuc, ℤ-discrete, pos_part, neg_part, sub_ℕ, ◌-ℤ◌, ltℤ, leℤ, wrap64, neg64, length,
  count, keep, any, null, All, All-append, has, Text, Text-discrete, text, has_prefix, strip_prefix,
  cut, count_ext, count-keep, count-le, count_mono, count-append,
}
use nft_okboy_fleet.Firewall.{PortProto}
use nft_okboy_fleet.Db.{
  User, Node, GroupTarget, Db, Query, query, read, write, find, update, err, not_unique, ok, Result,
}
use nft_okboy_fleet.Db.Users.{by_id}
use nft_okboy_fleet.Db.Groups.{group_id_is}

pub record DesiredRule : Type 0 where
  pub ip : Text
  pub port : ℤ
  pub proto : Text
  pub user : Text
  pub group : Text

unfoldable pub get_node_by_token_hash : Text → Query (Option Node)
unfolding query
get_node_by_token_hash hash = read (λ d. find (λ n. n.token_hash == hash) d.nodes)

-- nullStr
abbrev pub null_text : Text → Option Text
null_text s = if s == [] then none else some s

unfoldable pub update_node_report : ℤ → Text → Text → Query (Unit {0})
unfolding query
update_node_report id version backend = write (λ d. record d {
  nodes =
      update (λ n. n.id == id)
        (λ n. record n {
          last_seen = some d.now;
          agent_version = null_text version;
          agent_backend = null_text backend;
        })
        d.nodes;
})

abbrev pub is_target : ℤ → ℤ → GroupTarget → Bool
is_target group_id node_id t = (t.group_id == group_id) && (t.node_id == node_id)

-- INSERT … ON CONFLICT DO UPDATE
unfoldable pub add_group_target : ℤ → ℤ → ℤ → Text → Query (Unit {0})
unfolding query
add_group_target group_id node_id port proto = write (λ d. record d {
  group_targets =
      if any (is_target group_id node_id) d.group_targets
      then update (is_target group_id node_id) (λ t. record t { port = port; proto = proto })
          d.group_targets
      else d.group_targets
        ++ record { group_id = group_id; node_id = node_id; port = port; proto = proto } ∷ [];
})

unfoldable pub remove_group_target : ℤ → ℤ → Query (Unit {0})
unfolding query
remove_group_target group_id node_id = write (λ d. record d {
  group_targets = keep (λ t. not (is_target group_id node_id t)) d.group_targets;
})

-- A JOIN: for each row of the list, the rules that it yields.
abbrev pub join {ℓ κ} : {A : Type ℓ} {B : Type κ} → (A → List B) → List A → List B
join f [] = []
join f (x ∷ xs) = f x ++ join f xs

-- One rule for a user with a recorded address: current_ip is neither NULL nor ''.
abbrev pub rule_for : Text → ℤ → Text → User → List DesiredRule
rule_for group port proto u = elim u.current_ip [
  | none ↦ []
  | some ip ↦
      if ip == []
      then []
      else record { ip = ip; port = port; proto = proto; user = u.username; group = group } ∷ []
]

abbrev pub members : Db → ℤ → (User → List DesiredRule) → List DesiredRule
members d group_id rule =
    join
      (λ m.
        if (m.group_id == group_id) && m.enabled
        then join (λ u. if by_id m.user_id u then rule u else []) d.users
        else [])
      d.memberships

unfoldable pub local_rules : Db → List DesiredRule
local_rules d = join (λ g. members d g.id (rule_for g.name g.port g.proto)) d.groups

unfoldable pub desired_state_local : Query (List DesiredRule)
unfolding query local_rules
desired_state_local = read local_rules

unfoldable pub node_rules : Db → ℤ → List DesiredRule
node_rules d node_id =
    join
      (λ t.
        if t.node_id == node_id
        then join
            (λ g.
              if group_id_is t.group_id g
              then members d g.id (rule_for g.name t.port t.proto)
              else [])
            d.groups
        else [])
      d.group_targets

unfoldable pub desired_state_for_node : ℤ → Query (List DesiredRule)
unfolding query node_rules
desired_state_for_node node_id = read (λ d. node_rules d node_id)

-- The ports of a node's targets whose group exists. (The order of the rows is not modelled.)
unfoldable pub node_target_ports : ℤ → Query (List PortProto)
unfolding query
node_target_ports node_id = read (λ d.
    map (λ t. record { port = t.port; proto = t.proto })
      (keep (λ t. (t.node_id == node_id) && any (group_id_is t.group_id) d.groups) d.group_targets))

abbrev pub node_id_is : ℤ → Node → Bool
node_id_is id n = n.id == id

-- UNIQUE (name) and UNIQUE (token_hash) of nodes
abbrev pub node_taken : Text → Text → Db → Bool
node_taken name token_hash d = any (λ n. (n.name == name) || (n.token_hash == token_hash)) d.nodes

-- INSERT INTO nodes
abbrev pub insert_node : Text → Text → Db → Result ℤ × Db
insert_node name token_hash d = if node_taken name token_hash d then (err not_unique, d) else (
  ok (pos (d.next_node + 1)),
  record d {
    next_node = d.next_node + 1;
    nodes =
        d.nodes
        ++ record {
          id = pos (d.next_node + 1);
          name = name;
          token_hash = token_hash;
          last_seen = none;
          agent_version = none;
          agent_backend = none;
        }
          ∷ [];
  },
)

unfoldable pub create_node : Text → Text → Query ℤ
unfolding query
create_node name token_hash = query (insert_node name token_hash)

unfoldable pub get_node_by_name : Text → Query (Option Node)
unfolding query
get_node_by_name name = read (λ d. find (λ n. n.name == name) d.nodes)

unfoldable pub list_nodes : Query (List Node)
unfolding query
list_nodes = read (λ d. d.nodes)

-- DELETE FROM nodes, which cascades to the targets
unfoldable pub delete_node : ℤ → Query (Unit {0})
unfolding query
delete_node id = write (λ d. record d {
  nodes = keep (λ n. not (node_id_is id n)) d.nodes;
  group_targets = keep (λ t. not (t.node_id == id)) d.group_targets;
})

unfoldable pub touch_node : ℤ → Query (Unit {0})
unfolding query
touch_node id = write (λ d. record d {
  nodes = update (node_id_is id) (λ n. record n { last_seen = some d.now }) d.nodes;
})
