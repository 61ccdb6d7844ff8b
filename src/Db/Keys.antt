-- ===== src/Db/Keys.antt =====
-- The keys of the schema (internal/db/schema.go) and the kinds of statement that keep them unique.
use nft_okboy_fleet.Prelude.{
  ◌≡◌, refl, sym, ap, inl, inr, Bool, true, false, ◌&&◌, ◌||◌, List, [], ◌∷◌, arith, ◌==◌,
  nat_discrete, Bool-discrete, Bool-cases, ℤ, ℤ-discrete, count, any, Text, Text-discrete, ==_eq,
  subst, count-any,
}
use nft_okboy_fleet.Db.{
  User, Group, Membership, Node, GroupTarget, Db, Result, ok, query, update, write,
}
use nft_okboy_fleet.Db.Users.{by_name, by_id, set_users, insert_user}
use nft_okboy_fleet.Db.Groups.{is_member, group_id_is, insert_group, group_taken}
use nft_okboy_fleet.Db.Nodes.{is_target, node_id_is, insert_node}
use nft_okboy_fleet.Db.Unique.{
  Unique, Named, update-Unique, append-Unique, update-Named, append-Named,
}

abbrev pub group_named : Text → Group → Bool
group_named name g = g.name == name

abbrev pub on_port : ℤ × Text → Group → Bool
on_port (port, proto) g = (g.port == port) && (g.proto == proto)

abbrev pub member_of : ℤ × ℤ → Membership → Bool
member_of (user_id, group_id) = is_member user_id group_id

abbrev pub node_named : Text → Node → Bool
node_named name n = n.name == name

abbrev pub hashed : Text → Node → Bool
hashed hash n = n.token_hash == hash

abbrev pub target_of : ℤ × ℤ → GroupTarget → Bool
target_of (group_id, node_id) = is_target group_id node_id

-- The keys of the schema: users by name and id, groups by name and id and, where there is an index
-- for it, by port with protocol,
-- memberships by user and group, nodes by name, id and token, targets by group and node.
abbrev pub UniqueKeys : Db → Type 0
UniqueKeys d =
    Named by_name by_id d.next_user d.users
    × Named group_named group_id_is d.next_group d.groups
    × (d.ports_unique ≡ true → Unique on_port d.groups)
    × Unique member_of d.memberships
    × Named node_named node_id_is d.next_node d.nodes
    × Unique hashed d.nodes
    × Unique target_of d.group_targets

-- Whether a statement runs or fails, the keys stay as what it does leaves them.
pub query-UniqueKeys {ℓ} :
    {A : Type ℓ} (q : Db → Result A × Db) (d : Db)
    → ((d' : Db) → UniqueKeys d' → UniqueKeys (q d').1)
    → UniqueKeys d
    → UniqueKeys (query q d).1
unfolding query
query-UniqueKeys q d kept v = by_faults d.faults
  where
    by_faults : (fs : List Bool) → UniqueKeys (query q (record d { faults = fs })).1
    by_faults [] = kept (record d { faults = [] }) v
    by_faults (true ∷ fs) = v
    by_faults (false ∷ fs) = kept (record d { faults = fs }) v

pub write-UniqueKeys :
    (f : Db → Db) (d : Db)
    → ((d' : Db) → UniqueKeys d' → UniqueKeys (f d'))
    → UniqueKeys d
    → UniqueKeys (write f d).1
write-UniqueKeys f d kept v = query-UniqueKeys (λ d. (ok tt, f d)) d kept v

-- An UPDATE of users that changes neither their names nor their ids.
pub users-UniqueKeys :
    (q : User → Bool) (f : User → User) (d : Db)
    → ((u : User) → (f u).username ≡ u.username)
    → ((u : User) → (f u).id ≡ u.id)
    → UniqueKeys d
    → UniqueKeys (set_users q f d)
users-UniqueKeys q f d same_name same_id (us, gs, ports, ms, ns, hs, ts) = (
  update-Named by_name by_id q f d.next_user d.users (λ n u. ap (λ x. x == n) (same_name u))
      (λ i u. ap (λ x. x == i) (same_id u)) us,
  gs,
  ports,
  ms,
  ns,
  hs,
  ts,
)

pub sets-UniqueKeys :
    (q : User → Bool) (f : User → User) (d : Db)
    → ((u : User) → (f u).username ≡ u.username)
    → ((u : User) → (f u).id ≡ u.id)
    → UniqueKeys d
    → UniqueKeys (write (set_users q f) d).1
sets-UniqueKeys q f d same_name same_id v =
    query-UniqueKeys (λ d. (ok tt, set_users q f d)) d
      (λ d' v'. users-UniqueKeys q f d' same_name same_id v') v

-- An UPDATE of nodes that changes none of their keys.
pub nodes-UniqueKeys :
    (q : Node → Bool) (f : Node → Node) (d : Db)
    → ((n : Node) → (f n).name ≡ n.name)
    → ((n : Node) → (f n).id ≡ n.id)
    → ((n : Node) → (f n).token_hash ≡ n.token_hash)
    → UniqueKeys d
    → UniqueKeys (record d { nodes = update q f d.nodes })
nodes-UniqueKeys q f d same_name same_id same_hash (us, gs, ports, ms, ns, hs, ts) = (
  us,
  gs,
  ports,
  ms,
  update-Named node_named node_id_is q f d.next_node d.nodes (λ n x. ap (λ y. y == n) (same_name x))
      (λ i x. ap (λ y. y == i) (same_id x)) ns,
  update-Unique hashed q f d.nodes (λ h x. ap (λ y. y == h) (same_hash x)) hs,
  ts,
)

-- A row with a name that is free.
free_name :
    {A : Type 0} (name_of : A → Text) (name n : Text) (rows : List A)
    → any (λ x. name_of x == name) rows ≡ false
    → (name == n) ≡ true
    → count (λ x. name_of x == n) rows ≡ 0
free_name name_of name n rows free h =
    subst (λ n. count (λ x. name_of x == n) rows ≡ 0) (==_eq name n h)
      (count-any (λ x. name_of x == name) rows free)

pub insert_user-UniqueKeys :
    (name secret : Text) (admin : Bool) (d : Db)
    → UniqueKeys d
    → UniqueKeys (insert_user name secret admin d).1
insert_user-UniqueKeys name secret admin d (us, gs, ports, ms, ns, hs, ts) =
    elim (Bool-cases (any (by_name name) d.users)) [
      | inl taken ↦ rw taken (us, gs, ports, ms, ns, hs, ts)
      | inr free ↦ rw free (
        append-Named by_name by_id _ d.next_user d.users
            (λ n h. free_name (λ u. u.username) name n d.users free h) (λ i h. sym (==_eq _ i h))
            us,
        gs,
        ports,
        ms,
        ns,
        hs,
        ts,
      )
    ]

-- A test that fails on the disjunction of two fails on both.
any_or :
    {A : Type 0} (p q : A → Bool) (rows : List A)
    → any (λ x. p x || q x) rows ≡ false
    → (any p rows ≡ false) × (any q rows ≡ false)
any_or p q [] h = (refl, refl)
any_or p q (x ∷ rows) h =
    let (hp, hq) = any_or p q rows (ground (arith, h)) in
    (ground (arith, h, hp), ground (arith, h, hq))

free_port :
    (name : Text) (port : ℤ) (proto : Text) (k : ℤ × Text) (rows : List Group)
    → any (λ g. (g.port == port) && (g.proto == proto)) rows ≡ false
    → ((port == k.0) && (proto == k.1)) ≡ true
    → count (on_port k) rows ≡ 0
free_port name port proto k rows free h =
    let same_port : port ≡ k.0 = ==_eq port k.0 (ground (arith, h)) in
    let same_proto : proto ≡ k.1 = ==_eq proto k.1 (ground (arith, h)) in
    subst (λ x. count (λ g. (g.port == x) && (g.proto == k.1)) rows ≡ 0) same_port
      (subst (λ y. count (λ g. (g.port == port) && (g.proto == y)) rows ≡ 0) same_proto
        (count-any (λ g. (g.port == port) && (g.proto == proto)) rows free))

any_under :
    {A : Type 0} (b : Bool) (p : A → Bool) (rows : List A)
    → b ≡ true
    → any (λ x. b && p x) rows ≡ false
    → any p rows ≡ false
any_under true p rows on h = h
any_under false p rows on h = absurd (ground (arith, on))

pub insert_group-UniqueKeys :
    (name : Text) (port : ℤ) (proto : Text) (d : Db)
    → UniqueKeys d
    → UniqueKeys (insert_group name port proto d).1
insert_group-UniqueKeys name port proto d (us, gs, ports, ms, ns, hs, ts) =
    elim (Bool-cases (group_taken name port proto d)) [
      | inl taken ↦ rw taken (us, gs, ports, ms, ns, hs, ts)
      | inr free ↦
          let (name_free, port_free) =
            any_or (λ g. g.name == name)
              (λ g. d.ports_unique && ((g.port == port) && (g.proto == proto))) d.groups free in
          rw free (
            us,
            append-Named group_named group_id_is _ d.next_group d.groups
                (λ n h. free_name (λ g. g.name) name n d.groups name_free h)
                (λ i h. sym (==_eq _ i h)) gs,
            λ on.
                append-Unique on_port _ d.groups
                  (λ k h.
                    free_port name port proto k d.groups
                      (any_under d.ports_unique (λ g. (g.port == port) && (g.proto == proto))
                        d.groups on port_free)
                      h)
                  (ports on),
            ms,
            ns,
            hs,
            ts,
          )
    ]

pub insert_node-UniqueKeys :
    (name hash : Text) (d : Db) → UniqueKeys d → UniqueKeys (insert_node name hash d).1
insert_node-UniqueKeys name hash d (us, gs, ports, ms, ns, hs, ts) =
    elim (Bool-cases (any (λ n. (n.name == name) || (n.token_hash == hash)) d.nodes)) [
      | inl taken ↦ rw taken (us, gs, ports, ms, ns, hs, ts)
      | inr free ↦
          let (name_free, hash_free) =
            any_or (λ n. n.name == name) (λ n. n.token_hash == hash) d.nodes free in
          rw free (
            us,
            gs,
            ports,
            ms,
            append-Named node_named node_id_is _ d.next_node d.nodes
                (λ n h. free_name (λ x. x.name) name n d.nodes name_free h)
                (λ i h. sym (==_eq _ i h)) ns,
            append-Unique hashed _ d.nodes
                (λ k h. free_name (λ x. x.token_hash) hash k d.nodes hash_free h) hs,
            ts,
          )
    ]
