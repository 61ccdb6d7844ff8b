-- ===== src/Db/Nodes/Desired.antt =====
-- Who is in the desired state of a firewall (internal/db/nodes.go).
use nft_okboy_fleet.Prelude.{
  ◌≡◌, refl, sym, ap, ◌∙◌, ==_eq, ◌≢◌, inl, inr, Bool, true, false, ◌&&◌, some, List, [], ◌∷◌,
  arith, if◌then◌else◌, ◌==◌, nat_discrete, Bool-discrete, Bool-cases, Option-cases, ℤ, ℤ-discrete,
  All, All-append, Text, Text-discrete,
}
use mathlib.Core.List.{Memᴰ}
use nft_okboy_fleet.Db.{User, Group, Membership, GroupTarget, Db}
use nft_okboy_fleet.Db.Users.{by_id}
use nft_okboy_fleet.Db.Groups.{group_id_is}
use nft_okboy_fleet.Db.Nodes.{DesiredRule, join, rule_for, members, local_rules, node_rules}

All-join {ℓ κ} :
    {A : Type ℓ} {B : Type 0} (P : B → Type κ) (f : A → List B) (xs : List A)
    → ((x : A) → Memᴰ x xs → All P (f x))
    → All P (join f xs)
All-join P f [] h = tt
All-join P f (x ∷ xs) h =
    All-append P (f x) (join f xs) (h x (Memᴰ.head refl))
      (All-join P f xs (λ y m. h y (Memᴰ.tail m)))

-- A list that is only there under a test.
All-when {κ} :
    {B : Type 0} (P : B → Type κ) (test : Bool) (xs : List B)
    → (test ≡ true → All P xs)
    → All P (if test then xs else [])
All-when P true xs h = h refl
All-when P false xs h = tt

All-impl {κ ν} :
    {B : Type 0} (P : B → Type κ) (Q : B → Type ν)
    → ((x : B) → P x → Q x)
    → (xs : List B) → All P xs
    → All Q xs
All-impl P Q h [] all = tt
All-impl P Q h (x ∷ xs) all = (h x all.0, All-impl P Q h xs all.1)

-- A user's rule for a group: the rows that entitle the user to it, at the user's recorded address.
pub record IsEntitled (d : Db) (r : DesiredRule) : Type 0 where
  pub user : User
  pub group : Group
  pub membership : Membership
  pub user_row : Memᴰ user d.users
  pub group_row : Memᴰ group d.groups
  pub membership_row : Memᴰ membership d.memberships
  pub of_user : user.id ≡ membership.user_id
  pub of_group : membership.group_id ≡ group.id
  pub enabled : membership.enabled ≡ true
  pub named : (r.user ≡ user.username) × (r.group ≡ group.name)
  pub online : (user.current_ip ≡ some r.ip) × (r.ip ≢ [])

All-members {κ} :
    (P : DesiredRule → Type κ) (d : Db) (group_id : ℤ) (rule : User → List DesiredRule)
    → ((m : Membership) (u : User)
        → Memᴰ m d.memberships
        → Memᴰ u d.users
        → m.group_id ≡ group_id
        → m.enabled ≡ true
        → u.id ≡ m.user_id
        → All P (rule u))
    → All P (members d group_id rule)
All-members P d group_id rule h = All-join P _ d.memberships (λ m in_m.
    All-when P ((m.group_id == group_id) && m.enabled) _ (λ on. All-join P _ d.users (λ u in_u.
      All-when P (by_id m.user_id u) _ (λ same.
        h m u in_m in_u (ground (arith, on)) (ground (arith, on)) (ground (arith, same))))))

entitled :
    (d : Db) (g : Group) (m : Membership) (u : User) (port : ℤ) (proto : Text)
    → Memᴰ g d.groups
    → Memᴰ m d.memberships
    → Memᴰ u d.users
    → m.group_id ≡ g.id
    → m.enabled ≡ true
    → u.id ≡ m.user_id
    → All
        (λ r. (e : IsEntitled d r) × (e.group ≡ g) × (r.port ≡ port) × (r.proto ≡ proto))
        (rule_for g.name port proto u)
entitled d g m u port proto in_g in_m in_u same_g on same_u = elim (Option-cases u.current_ip) [
  | inl off ↦ rw off tt
  | inr (ip, at) ↦ rw at (elim (Bool-cases (ip == [])) [
    | inl empty ↦ rw empty tt
    | inr full ↦ rw full (
      (
        record {
          user = u;
          group = g;
          membership = m;
          user_row = in_u;
          group_row = in_g;
          membership_row = in_m;
          of_user = same_u;
          of_group = same_g;
          enabled = on;
          named = (refl, refl);
          online = (at, ground (arith, full));
        },
        refl,
        refl,
        refl,
      ),
      tt,
    )
  ])
]

-- Every rule that the hub's own firewall is to have is for a user with a recorded address, at that
-- address, through an enabled membership of the rule's group.
pub local_rules_sound : (d : Db) → All (IsEntitled d) (local_rules d)
unfolding local_rules
local_rules_sound d = All-join (IsEntitled d) _ d.groups (λ g in_g.
    All-members (IsEntitled d) d g.id (rule_for g.name g.port g.proto)
      (λ m u in_m in_u same_g on same_u.
        All-impl _ (IsEntitled d) (λ r h. h.0) _
          (entitled d g m u g.port g.proto in_g in_m in_u same_g on same_u)))

-- A rule of a node's desired state: entitled, and on the port of one of the node's own targets, which
-- is a target of the rule's group.
pub record IsForNode (d : Db) (node_id : ℤ) (r : DesiredRule) : Type 0 where
  pub entitlement : IsEntitled d r
  pub target : GroupTarget
  pub target_row : Memᴰ target d.group_targets
  pub of_node : target.node_id ≡ node_id
  pub of_rule_group : target.group_id ≡ entitlement.group.id
  pub at_target : (r.port ≡ target.port) × (r.proto ≡ target.proto)

-- Every rule of a node's desired state is for a user with a recorded address, at that address,
-- through an enabled membership of the rule's group, on the port and protocol of a target of that
-- node and of that group: a node never receives a rule for another node's or another group's port.
pub node_rules_sound : (d : Db) (node_id : ℤ) → All (IsForNode d node_id) (node_rules d node_id)
unfolding node_rules
node_rules_sound d node_id = All-join (IsForNode d node_id) _ d.group_targets (λ t in_t.
    All-when (IsForNode d node_id) (t.node_id == node_id) _ (λ mine.
      All-join (IsForNode d node_id) _ d.groups (λ g in_g.
        All-when (IsForNode d node_id) (group_id_is t.group_id g) _ (λ same.
          All-members (IsForNode d node_id) d g.id (rule_for g.name t.port t.proto)
            (λ m u in_m in_u same_g on same_u.
              All-impl _ (IsForNode d node_id)
                (λ r h. record {
                  entitlement = h.0;
                  target = t;
                  target_row = in_t;
                  of_node = ground (arith, mine);
                  of_rule_group = sym (==_eq g.id t.group_id same) ∙ ap (λ x. x.id) (sym h.1);
                  at_target = (h.2, h.3);
                })
                _ (entitled d g m u t.port t.proto in_g in_m in_u same_g on same_u))))))
