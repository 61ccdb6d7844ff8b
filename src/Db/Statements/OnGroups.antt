-- ===== src/Db/Statements/OnGroups.antt =====
-- The statements on groups and memberships (internal/db) keep the keys unique.
use nft_okboy_fleet.Prelude.{
  ◌⊎◌, ◌≤◌, ltb, Text, false, ◌≡◌, refl, inl, inr, Bool, true, not, List, [], ◌∷◌, ◌++◌, arith,
  if◌then◌else◌, ◌==◌, nat_discrete, Bool-discrete, Bool-cases, ℤ, ℤ-discrete, count, keep, any,
  Text-discrete, subst, ==_eq, count-any,
}
use nft_okboy_fleet.Db.{Db, Group, update}
use nft_okboy_fleet.Db.Groups.{
  same_port, has_duplicates, migrate004_groups_unique, is_member, group_id_is, insert_group,
  create_group, delete_group, add_membership, remove_membership, set_membership_enabled,
}
use nft_okboy_fleet.Db.Unique.{Unique, keep-Unique, update-Unique, append-Unique, keep-Named}
use nft_okboy_fleet.Db.Keys.{
  UniqueKeys, group_named, on_port, member_of, target_of, query-UniqueKeys, insert_group-UniqueKeys,
  write-UniqueKeys,
}
use nft_okboy_fleet.Db.Statements.{
  migrates_groups, GroupStatement, exec_group, creates_group, deletes_group, adds_membership,
  removes_membership, sets_membership_enabled,
}

pair_path : (j k : ℤ × ℤ) → j.0 ≡ k.0 → j.1 ≡ k.1 → j ≡ k
pair_path j k first second = rw (first, second) refl

-- A row for a pair of keys joins when no row has the pair; else that row changes in place.
pub upsert-Unique :
    {A : Type 0} (key : ℤ × ℤ → A → Bool) (k : ℤ × ℤ) (x : A) (f : A → A) (rows : List A)
    → ((j : ℤ × ℤ) → key j x ≡ true → (k.0 ≡ j.0) × (k.1 ≡ j.1))
    → ((j : ℤ × ℤ) (y : A) → key j (f y) ≡ key j y)
    → Unique key rows
    → Unique key (if any (key k) rows then update (key k) f rows else rows ++ x ∷ [])
upsert-Unique key k x f rows own same unique = elim (Bool-cases (any (key k) rows)) [
  | inl there ↦ rw there (update-Unique key (key k) f rows same unique)
  | inr free ↦ rw free (
      append-Unique key x rows
        (λ j h.
          let (first, second) = own j h in
          subst (λ i. count (key i) rows ≡ 0) (pair_path k j first second)
            (count-any (key k) rows free))
        unique)
]

-- A row on the port of `k` is there once, when no port of a row is there twice.
at_most_once :
    (rows some_rows : List Group) (k : ℤ × Text)
    → any (λ g. ltb 1 (count (same_port g.port g.proto) rows)) some_rows ≡ false
    → (count (on_port k) some_rows ≡ 0) ⊎ (count (on_port k) rows ≤ 1)
at_most_once rows [] k h = inl refl
at_most_once rows (g ∷ gs) k h = elim (Bool-cases (on_port k g)) [
  | inl here ↦
      let port : g.port ≡ k.0 = ground (arith, here) in
      let proto : g.proto ≡ k.1 = ground (arith, here) in
      let once : count (same_port g.port g.proto) rows ≤ 1 = ground (arith, h) in
      inr (
        subst (λ x. count (same_port x k.1) rows ≤ 1) port
          (subst (λ y. count (same_port g.port y) rows ≤ 1) proto once))
  | inr away ↦ elim (at_most_once rows gs k (ground (arith, h))) [
    | inl none_there ↦ inl (ground (arith, away, none_there))
    | inr once ↦ inr once
  ]
]

ports_once : (rows : List Group) → has_duplicates rows ≡ false → Unique on_port rows
ports_once rows h k = elim (at_most_once rows rows k h) [
  | inl none_there ↦ omega (arith, none_there)
  | inr once ↦ once
]

pub exec_group-UniqueKeys :
    (q : GroupStatement) (d : Db) → UniqueKeys d → UniqueKeys (exec_group q d)
unfolding exec_group migrate004_groups_unique create_group delete_group add_membership
    remove_membership set_membership_enabled
exec_group-UniqueKeys (creates_group name port proto) d v =
    query-UniqueKeys (insert_group name port proto) d (insert_group-UniqueKeys name port proto) v
exec_group-UniqueKeys migrates_groups d v =
    write-UniqueKeys (λ d. if has_duplicates d.groups then d else record d { ports_unique = true })
      d
      (λ d' v'. elim (Bool-cases (has_duplicates d'.groups)) [
        | inl twice ↦ rw twice v'
        | inr once ↦ rw once (v'.0, v'.1, λ on. ports_once d'.groups once, v'.3, v'.4, v'.5, v'.6)
      ])
      v
exec_group-UniqueKeys (deletes_group id) d v =
    write-UniqueKeys
      (λ d. record d {
        groups = keep (λ g. not (group_id_is id g)) d.groups;
        memberships = keep (λ m. not (m.group_id == id)) d.memberships;
        group_targets = keep (λ t. not (t.group_id == id)) d.group_targets;
      })
      d
      (λ d' (us, gs, ports, ms, ns, hs, ts). (
        us,
        keep-Named group_named group_id_is (λ g. not (group_id_is id g)) d'.next_group d'.groups gs,
        λ on. keep-Unique on_port (λ g. not (group_id_is id g)) d'.groups (ports on),
        keep-Unique member_of (λ m. not (m.group_id == id)) d'.memberships ms,
        ns,
        hs,
        keep-Unique target_of (λ t. not (t.group_id == id)) d'.group_targets ts,
      ))
      v
exec_group-UniqueKeys (adds_membership user_id group_id enabled) d v =
    write-UniqueKeys
      (λ d. record d {
        memberships =
            if any (is_member user_id group_id) d.memberships
            then update (is_member user_id group_id) (λ m. record m { enabled = enabled })
                d.memberships
            else d.memberships
              ++ record { user_id = user_id; group_id = group_id; enabled = enabled } ∷ [];
      })
      d
      (λ d' (us, gs, ports, ms, ns, hs, ts). (
        us,
        gs,
        ports,
        upsert-Unique member_of (user_id, group_id)
            (record { user_id = user_id; group_id = group_id; enabled = enabled })
            (λ m. record m { enabled = enabled }) d'.memberships
            (λ j h. (==_eq user_id j.0 (ground (arith, h)), ==_eq group_id j.1 (ground (arith, h))))
            (λ j m. refl) ms,
        ns,
        hs,
        ts,
      ))
      v
exec_group-UniqueKeys (removes_membership user_id group_id) d v =
    write-UniqueKeys
      (λ d. record d { memberships = keep (λ m. not (is_member user_id group_id m)) d.memberships })
      d
      (λ d' (us, gs, ports, ms, ns, hs, ts). (
        us,
        gs,
        ports,
        keep-Unique member_of (λ m. not (is_member user_id group_id m)) d'.memberships ms,
        ns,
        hs,
        ts,
      ))
      v
exec_group-UniqueKeys (sets_membership_enabled user_id group_id enabled) d v =
    write-UniqueKeys
      (λ d. record d {
        memberships =
            update (is_member user_id group_id) (λ m. record m { enabled = enabled }) d.memberships;
      })
      d
      (λ d' (us, gs, ports, ms, ns, hs, ts). (
        us,
        gs,
        ports,
        update-Unique member_of (is_member user_id group_id) (λ m. record m { enabled = enabled })
            d'.memberships (λ j m. refl) ms,
        ns,
        hs,
        ts,
      ))
      v
