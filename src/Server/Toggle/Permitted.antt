-- ===== src/Server/Toggle/Permitted.antt =====
-- Who may change a membership by a toggle (internal/server/knock.go: toggleMembership).
use nft_okboy_fleet.Prelude.{
  ◌≡◌, refl, sym, ap, ◌∙◌, ◌≢◌, ◌⊎◌, inl, inr, Bool, true, false, ◌&&◌, ◌||◌, Option, none, some,
  List, arith, ◌==◌, nat_discrete, Bool-discrete, ℤ, ℤ-discrete, any, Text, Text-discrete, subst,
}
use nft_okboy_fleet.Auth.Outcome.{Proves, verify_hmac_sound}
use nft_okboy_fleet.Db.{User, Membership, Db, find}
use nft_okboy_fleet.Db.Users.{by_name}
use nft_okboy_fleet.Db.Groups.{has_access, is_member}
use nft_okboy_fleet.Firewall.{FirewallBackend}
use nft_okboy_fleet.Server.{Config, Request, World}
use nft_okboy_fleet.Server.Knock.{auth_user, throttle_address}
use nft_okboy_fleet.Server.Handler.{Library, failure, pure, answer, found}
use nft_okboy_fleet.Server.Handler.Frame.{roster, bind_changed, found_next, found-same}
use nft_okboy_fleet.Server.Toggle.{
  may_toggle, other_step_up, requester_row, toggle_checked, toggle_flag, toggle_allowed, toggle_ids,
  toggle_as, toggle_user, toggle_membership,
}
use nft_okboy_fleet.Server.Toggle.Access.{
  members, Changes, IsAdminIn, MayEnable, auth_next, auth-roster,
}
use nft_okboy_fleet.Server.Toggle.Authorized.{
  enable_same, requester_row_lem, may_toggle_lem, toggle_checked_lem,
}

-- What a toggle needs, over the users and the memberships before it: an admin, or a user on their
-- own membership, who disables it or has one already.
abbrev pub Permits : Db → Text → User → Option ℤ → Option ℤ → Option Bool → Type 0
Permits d name requester path_user path_group flag =
    (find (by_name name) d.users ≡ some requester)
    × ((requester.is_admin ≡ true)
        ⊎ ((path_user ≡ some requester.id)
            × ((flag ≡ some false)
                ⊎ ((group_id : ℤ) × (path_group ≡ some group_id)
                    × (has_access d name group_id true ≡ true)))))

Permits-same :
    (d d' : Db) (name : Text) (requester : User) (path_user path_group : Option ℤ)
    (flag : Option Bool)
    → roster d' ≡ roster d
    → Permits d' name requester path_user path_group flag
    → Permits d name requester path_user path_group flag
Permits-same d d' name requester path_user path_group flag e h =
    subst
      (λ r.
        (find (by_name name) r.0 ≡ some requester)
        × ((requester.is_admin ≡ true)
            ⊎ ((path_user ≡ some requester.id)
                × ((flag ≡ some false)
                    ⊎ ((g : ℤ) × (path_group ≡ some g)
                        × (any
                              (λ m.
                                any (λ u. by_name name u && is_member u.id g m) r.0
                                && (true || m.enabled))
                              r.1
                            ≡ true))))))
      e h

module _ (lib : Library) (cfg : Config) (be : FirewallBackend) (prefix : Text) where
  abbrev view : World be → List Membership
  view = members lib cfg be prefix

  self_step_up :
      (r : Request) (requester : User) (code : Text) (is_self : Bool) (w : World be)
      → is_self ≡ true
      → (other_step_up lib cfg be prefix r requester code is_self w).1 ≡ w
  unfolding other_step_up pure
  self_step_up r requester code is_self w h = rw h refl

  -- An admin's row is the requester's.
  admin_requester :
      (d : Db) (name : Text) (requester : User)
      → find (by_name name) d.users ≡ some requester
      → IsAdminIn lib cfg be prefix d name
      → requester.is_admin ≡ true
  admin_requester d name requester row (u, same, admin) =
      ap (λ o. elim o [ none ↦ true | some x ↦ x.is_admin ]) (sym row ∙ same) ∙ admin

  module _ (r : Request) (flag : Option Bool) (code name : Text) (requester : User)
      (user_id group_id : ℤ) where
    abbrev is_self : Bool
    is_self = requester.id == user_id

    -- A change to one's own membership switches it off, or has access behind it.
    self_lem :
        (w : World be)
        → is_self ≡ true
        → Changes lib cfg be prefix
            (toggle_allowed lib cfg be prefix r flag requester code name user_id group_id)
            w
        → (flag ≡ some false) ⊎ MayEnable lib cfg be prefix w.db name group_id
    unfolding toggle_allowed toggle_flag
    self_lem w self changed₀ =
        let (enabled, given, changed₁) =
          bind_changed view (found _ flag)
            (toggle_flag lib cfg be prefix r requester code name user_id group_id) w
            (ap view (found-same _ flag w)) changed₀ in
        let flag_is = found_next _ flag w enabled given in
        let w₁ = (found (failure 400 "Request body must include 'enabled' (bool)") flag w).1 in
        let stepped = self_step_up r requester code is_self w₁ self in
        let (_, _, changed₂) =
          bind_changed view (other_step_up lib cfg be prefix r requester code is_self)
            (λ _. toggle_checked lib cfg be prefix name user_id group_id is_self enabled) w₁
            (ap view stepped) changed₁ in
        elim (toggle_checked_lem lib cfg be prefix name user_id group_id is_self enabled _
          changed₂) [
            | inl off ↦ inl (flag_is ∙ ap some (ground (arith, self, off)))
            | inr may ↦ inr (
                subst (λ x. MayEnable lib cfg be prefix x.db name group_id)
                  (stepped ∙ found-same _ flag w) may)
          ]

    toggle_ids_lem :
        (w : World be)
        → find (by_name name) w.db.users ≡ some requester
        → Changes lib cfg be prefix
            (toggle_ids lib cfg be prefix r flag requester code name user_id group_id)
            w
        → Permits w.db name requester (some user_id) (some group_id) flag
    unfolding toggle_ids
    toggle_ids_lem w row changed₀ =
        let (same, passed) = may_toggle_lem lib cfg be prefix name is_self w in
        let (_, allowed, changed₁) =
          bind_changed view (may_toggle lib cfg be prefix name is_self)
            (λ _. toggle_allowed lib cfg be prefix r flag requester code name user_id group_id) w
            (ap (λ r. r.1) same) changed₀ in
        let w₁ = (may_toggle lib cfg be prefix name is_self w).1 in
        elim (passed allowed) [
          | inr admin ↦ (row, inl (admin_requester w.db name requester row admin))
          | inl self ↦ (
            row,
            elim (self_lem w₁ self changed₁) [
              | inl off ↦ inr (ground (arith, self), inl off)
              | inr may ↦ elim (enable_same w.db w₁.db name group_id same may) [
                | inl admin ↦ inl (admin_requester w.db name requester row admin)
                | inr access ↦ inr (ground (arith, self), inr (group_id, refl, access))
              ]
            ],
          )
        ]

  toggle_as_lem :
      (r : Request) (path_user path_group : Option ℤ) (flag : Option Bool) (code name : Text)
      (requester : User) (w : World be)
      → find (by_name name) w.db.users ≡ some requester
      → Changes lib cfg be prefix
          (toggle_as lib cfg be prefix r path_user path_group flag code name requester)
          w
      → Permits w.db name requester path_user path_group flag
  unfolding toggle_as answer
  toggle_as_lem r (some user_id) (some group_id) flag code name requester w row changed =
      toggle_ids_lem r flag code name requester user_id group_id w row changed
  toggle_as_lem r none path_group flag code name requester w row changed = absurd (changed refl)
  toggle_as_lem r (some user_id) none flag code name requester w row changed = absurd (changed refl)

  -- A toggle that changes a membership carries a header that proves a user, whose row says that they
  -- are an admin, or the membership is their own and they either switch it off or have had access to
  -- the group before: nobody but an admin grants access that was not granted before.
  pub toggle_permitted :
      (r : Request) (path_user path_group : Option ℤ) (flag : Option Bool) (code : Text)
      (w : World be)
      → (toggle_membership lib cfg be prefix r path_user path_group flag code w).1.db.memberships
        ≢ w.db.memberships
      → (name : Text) × Proves lib.parse_int lib.hmac r.authorization cfg.signature_ttl w.db name
        × ((requester : User) × Permits w.db name requester path_user path_group flag)
  unfolding toggle_membership toggle_user
  toggle_permitted r path_user path_group flag code w changed₀ =
      let same₁ = auth-roster lib cfg be prefix r w in
      let (name, proved, changed₁) =
        bind_changed view (auth_user lib cfg be prefix r)
          (toggle_user lib cfg be prefix r path_user path_group flag code) w (ap (λ r. r.1) same₁)
          changed₀ in
      let w₁ = (auth_user lib cfg be prefix r w).1 in
      let (same₂, found_row) = requester_row_lem lib cfg be prefix name w₁ in
      let (requester, got, changed₂) =
        bind_changed view (requester_row lib cfg be prefix name)
          (toggle_as lib cfg be prefix r path_user path_group flag code name) w₁
          (ap (λ r. r.1) same₂) changed₁ in
      let w₂ = (requester_row lib cfg be prefix name w₁).1 in
      let row = found_row requester got in
      let same_users : w₂.db.users ≡ w₁.db.users = ap (λ r. r.0) same₂ in
      let permits =
        toggle_as_lem r path_user path_group flag code name requester w₂
          (ap (find (by_name name)) same_users ∙ row) changed₂ in
      (
        name,
        verify_hmac_sound lib.parse_int lib.hmac r.authorization cfg.signature_ttl
            (throttle_address lib cfg be prefix r) w.db name
            (auth_next lib cfg be prefix r w name proved),
        (
          requester,
          Permits-same w.db w₂.db name requester path_user path_group flag (same₂ ∙ same₁) permits,
        ),
      )
