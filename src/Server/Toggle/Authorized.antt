-- ===== src/Server/Toggle/Authorized.antt =====
-- What a change by a toggle has passed (internal/server/knock.go: toggleMembership).
use nft_okboy_fleet.Prelude.{
  ◌≡◌, refl, sym, ap, ◌∙◌, ◌⊎◌, inl, inr, Bool, true, false, ◌&&◌, ◌||◌, some, List, nat_discrete,
  Bool-discrete, ℤ, ℤ-discrete, any, Text, Text-discrete, subst,
}
use nft_okboy_fleet.Auth.{is_admin}
use nft_okboy_fleet.Db.{User, Membership, Db, find}
use nft_okboy_fleet.Db.Users.{get_user_by_username, get_user, by_name, by_id}
use nft_okboy_fleet.Db.Groups.{get_group, has_access, group_id_is, is_member}
use nft_okboy_fleet.Firewall.{FirewallBackend}
use nft_okboy_fleet.Server.{Config, World}
use nft_okboy_fleet.Server.Handler.{Library, answered, next, pure, internal, found}
use nft_okboy_fleet.Server.Handler.Steps.{require_next, bind_next}
use nft_okboy_fleet.Server.Handler.Frame.{
  roster, bind_changed, bind-Keeps, found_next, found-same, require-same, internal-roster,
}
use nft_okboy_fleet.Server.Toggle.{
  target_group, target_user, requester_row, apply_toggle, toggle_enable, toggle_target, asks_admin,
  may_toggle, check_access, check_self_enable, toggle_checked,
}
use nft_okboy_fleet.Server.Toggle.Access.{
  members, Same, Changes, IsAdminIn, MayEnable, is_admin_row, user_row, asks_lem, check_access_lem,
}

-- Being an admin and having access are read off the users and the memberships.
pub enable_same :
    (d d' : Db) (name : Text) (group_id : ℤ)
    → roster d' ≡ roster d
    → ((u : User) × (find (by_name name) d'.users ≡ some u) × (u.is_admin ≡ true))
      ⊎ (has_access d' name group_id true ≡ true)
    → ((u : User) × (find (by_name name) d.users ≡ some u) × (u.is_admin ≡ true))
      ⊎ (has_access d name group_id true ≡ true)
enable_same d d' name group_id e h =
    subst
      (λ r.
        ((u : User) × (find (by_name name) r.0 ≡ some u) × (u.is_admin ≡ true))
        ⊎ (any
              (λ m.
                any (λ u. by_name name u && is_member u.id group_id m) r.0 && (true || m.enabled))
              r.1
            ≡ true))
      e h

module _ (lib : Library) (cfg : Config) (be : FirewallBackend) (prefix : Text) where
  check_self_enable_lem :
      (name : Text) (user_id group_id : ℤ) (self_enable : Bool) (w : World be)
      → (members lib cfg be prefix
            (check_self_enable lib cfg be prefix name user_id group_id self_enable w).1
          ≡ members lib cfg be prefix w)
        × ((check_self_enable lib cfg be prefix name user_id group_id self_enable w).0 ≡ next tt
            → (self_enable ≡ false) ⊎ MayEnable lib cfg be prefix w.db name group_id)
  unfolding check_self_enable pure
  check_self_enable_lem name user_id group_id false w = (refl, λ h. inl refl)
  check_self_enable_lem name user_id group_id true w =
      let asked = asks_admin lib cfg be prefix name in
      let checks = check_access lib cfg be prefix name user_id group_id in
      let (same, said) = asks_lem lib cfg be prefix name w in
      (
        bind-Keeps (members lib cfg be prefix) asked checks w (ap (λ r. r.1) same) (λ admin.
            (check_access_lem lib cfg be prefix name user_id group_id admin (asked w).1).0),
        λ h.
            let (admin, answer, rest) = bind_next asked checks w tt h in
            let is : (is_admin lib.parse_int lib.hmac name w.db).0 ≡ admin =
              ap (λ s. elim s [ answered r ↦ admin | next b ↦ b ]) (sym said ∙ answer) in
            inr
              (elim ((check_access_lem lib cfg be prefix name user_id group_id admin (asked w).1).1
                rest) [
                  | inl yes_admin ↦ inl (is_admin_row lib cfg be prefix name w.db (is ∙ yes_admin))
                  | inr access ↦ enable_same w.db (asked w).1.db name group_id same (inr access)
                ]),
      )

  pub may_toggle_lem :
      (name : Text) (is_self : Bool) (w : World be)
      → Same lib cfg be prefix w (may_toggle lib cfg be prefix name is_self w).1
        × ((may_toggle lib cfg be prefix name is_self w).0 ≡ next tt
            → (is_self ≡ true) ⊎ IsAdminIn lib cfg be prefix w.db name)
  unfolding may_toggle pure
  may_toggle_lem name true w = (refl, λ h. inl refl)
  may_toggle_lem name false w =
      let (admin, d) = is_admin lib.parse_int lib.hmac name w.db in
      (
        ap (λ x. roster x.db) (require-same admin _ (record w { db = d }))
            ∙ (asks_lem lib cfg be prefix name w).0,
        λ h. inr (
            is_admin_row lib cfg be prefix name w.db
              (require_next admin _ (record w { db = d }) h)),
      )

  abbrev db_roster : World be → List User × List Membership
  db_roster w = roster w.db

  target_group-roster :
      (id : ℤ) (w : World be) → Same lib cfg be prefix w (target_group lib cfg be prefix id w).1
  unfolding target_group get_group
  target_group-roster id w =
      bind-Keeps db_roster (internal (get_group id)) (found _) w
        (internal-roster (λ d. find (group_id_is id) d.groups) w (λ fs. refl))
        (λ row. ap db_roster (found-same _ row _))

  target_user-roster :
      (id : ℤ) (w : World be) → Same lib cfg be prefix w (target_user lib cfg be prefix id w).1
  unfolding target_user get_user
  target_user-roster id w =
      bind-Keeps db_roster (internal (get_user id)) (found _) w
        (internal-roster (λ d. find (by_id id) d.users) w (λ fs. refl))
        (λ row. ap db_roster (found-same _ row _))

  name-roster :
      (name : Text) (w : World be)
      → Same lib cfg be prefix w (internal {be = be} (get_user_by_username name) w).1
  unfolding get_user_by_username
  name-roster name w = internal-roster (λ d. find (by_name name) d.users) w (λ fs. refl)

  pub requester_row_lem :
      (name : Text) (w : World be)
      → Same lib cfg be prefix w (requester_row lib cfg be prefix name w).1
        × ((u : User)
            → (requester_row lib cfg be prefix name w).0 ≡ next u
            → find (by_name name) w.db.users ≡ some u)
  unfolding requester_row
  requester_row_lem name w = (
    bind-Keeps db_roster (internal (get_user_by_username name)) (found _) w (name-roster name w)
        (λ row. ap db_roster (found-same _ row _)),
    λ u h.
        let (row, got, rest) = bind_next (internal (get_user_by_username name)) (found _) w u h in
        sym (user_row lib cfg be prefix name w row got) ∙ found_next _ row _ u rest,
  )

  -- A change behind the existence checks has passed the check of a self-enable.
  pub toggle_checked_lem :
      (name : Text) (user_id group_id : ℤ) (is_self enabled : Bool) (w : World be)
      → Changes lib cfg be prefix
          (toggle_checked lib cfg be prefix name user_id group_id is_self enabled)
          w
      → ((is_self && enabled) ≡ false) ⊎ MayEnable lib cfg be prefix w.db name group_id
  unfolding toggle_checked toggle_target toggle_enable
  toggle_checked_lem name user_id group_id is_self enabled w changed₀ =
      let view = members lib cfg be prefix in
      let get = target_group lib cfg be prefix group_id in
      let same₁ = target_group-roster group_id w in
      let (group, _, changed₁) =
        bind_changed view get
          (toggle_target lib cfg be prefix name user_id group_id is_self enabled) w
          (ap (λ r. r.1) same₁) changed₀ in
      let w₁ = (get w).1 in
      let same₂ = target_user-roster user_id w₁ in
      let (_, _, changed₂) =
        bind_changed view (target_user lib cfg be prefix user_id)
          (λ _. toggle_enable lib cfg be prefix name user_id group_id is_self enabled group) w₁
          (ap (λ r. r.1) same₂) changed₁ in
      let w₂ = (target_user lib cfg be prefix user_id w₁).1 in
      let (kept, passed) = check_self_enable_lem name user_id group_id (is_self && enabled) w₂ in
      let (_, enabled_next, _) =
        bind_changed view
          (check_self_enable lib cfg be prefix name user_id group_id (is_self && enabled))
          (λ _. apply_toggle lib cfg be prefix name user_id group_id enabled group) w₂ kept
          changed₂ in
      elim (passed enabled_next) [
        | inl off ↦ inl off
        | inr may ↦ inr (enable_same w.db w₂.db name group_id (same₂ ∙ same₁) may)
      ]
