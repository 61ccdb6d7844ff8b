-- ===== src/Server/Toggle/Access.antt =====
-- What the checks of a toggle let pass (internal/server/knock.go: toggleMembership).
use nft_okboy_fleet.Prelude.{
  ◌≡◌, refl, sym, ap, ◌∙◌, ◌≢◌, ◌⊎◌, inl, inr, Bool, true, false, Option, some, List, [], ◌∷◌,
  arith, if◌then◌else◌, nat_discrete, Bool-discrete, Option-cases, ℤ, ℤ-discrete, Text,
  Text-discrete,
}
use nft_okboy_fleet.Auth.{verify_hmac, is_admin, granted}
use nft_okboy_fleet.Auth.Roster.{verify_hmac-roster, is_admin-roster}
use nft_okboy_fleet.Db.{User, Membership, Db, query, find}
use nft_okboy_fleet.Db.Users.{get_user_by_username, by_name}
use nft_okboy_fleet.Db.Groups.{user_has_group_access, has_access}
use nft_okboy_fleet.Db.Logs.{log_audit}
use nft_okboy_fleet.Firewall.{FirewallBackend}
use nft_okboy_fleet.Server.{Config, Request, World}
use nft_okboy_fleet.Server.Knock.{auth_user, throttle_address}
use nft_okboy_fleet.Server.Handler.{
  Library, unauthorized, continue, quietly, answer, Handler, next, ◌>>=◌, ◌>>◌, pure, internal,
}
use nft_okboy_fleet.Server.Handler.Steps.{bind_next}
use nft_okboy_fleet.Server.Handler.Frame.{
  roster, bind-Keeps, internal_next, internal-roster, read_cases, judged_next, judged-db,
}
use nft_okboy_fleet.Server.Toggle.{asks_admin, check_access, refuse_reenable}

module _ (lib : Library) (cfg : Config) (be : FirewallBackend) (prefix : Text) where
  abbrev pub members : World be → List Membership
  members w = w.db.memberships

  -- The database's tables stay, of users and of memberships.
  abbrev pub Same : World be → World be → Type 0
  Same w w' = roster w'.db ≡ roster w.db

  abbrev pub Changes : {A : Type 0} → Handler be A → World be → Type 0
  Changes m w = members (m w).1 ≢ members w

  -- The row of a user who is an admin.
  abbrev pub IsAdminIn : Db → Text → Type 0
  IsAdminIn d name = (u : User) × (find (by_name name) d.users ≡ some u) × (u.is_admin ≡ true)

  pub is_admin_row :
      (name : Text) (d : Db) → (is_admin lib.parse_int lib.hmac name d).0 ≡ true → IsAdminIn d name
  unfolding is_admin get_user_by_username
  is_admin_row name d h = elim (read_cases (λ d. find (by_name name) d.users) d (λ fs. refl)).0 [
    | inl e ↦ absurd (ground (arith, h, e))
    | inr e ↦ elim (Option-cases (find (by_name name) d.users)) [
      | inl nobody ↦ absurd (ground (arith, h, e, nobody))
      | inr (u, row) ↦ (u, row, ground (arith, h, e, row))
    ]
  ]

  pub auth_next :
      (r : Request) (w : World be) (name : Text)
      → (auth_user lib cfg be prefix r w).0 ≡ next name
      → (verify_hmac lib.parse_int lib.hmac r.authorization cfg.signature_ttl
          (throttle_address lib cfg be prefix r)
          w.db).0
        ≡ granted name
  unfolding auth_user
  auth_next r w name h =
      judged_next unauthorized
        (verify_hmac lib.parse_int lib.hmac r.authorization cfg.signature_ttl
          (throttle_address lib cfg be prefix r))
        w name h

  pub auth-roster : (r : Request) (w : World be) → Same w (auth_user lib cfg be prefix r w).1
  unfolding auth_user
  auth-roster r w =
      ap roster (
        judged-db unauthorized
          (verify_hmac lib.parse_int lib.hmac r.authorization cfg.signature_ttl
            (throttle_address lib cfg be prefix r))
          w)
      ∙ verify_hmac-roster lib.parse_int lib.hmac r.authorization cfg.signature_ttl
          (throttle_address lib cfg be prefix r) w.db

  pub user_row :
      (name : Text) (w : World be) (row : Option User)
      → (internal (get_user_by_username name) w).0 ≡ next row
      → row ≡ find (by_name name) w.db.users
  unfolding get_user_by_username
  user_row name w row h = internal_next (λ d. find (by_name name) d.users) w row (λ fs. refl) h

  -- What check_self_enable lets pass.
  abbrev pub MayEnable : Db → Text → ℤ → Type 0
  MayEnable d name group_id = IsAdminIn d name ⊎ (has_access d name group_id true ≡ true)

  pub asks_lem :
      (name : Text) (w : World be)
      → Same w (asks_admin lib cfg be prefix name w).1
        × ((asks_admin lib cfg be prefix name w).0
            ≡ next (is_admin lib.parse_int lib.hmac name w.db).0)
  unfolding asks_admin
  asks_lem name w = (is_admin-roster lib.parse_int lib.hmac name w.db, refl)

  -- A refused attempt is logged, and changes no membership.
  refuse-members :
      (name : Text) (user_id group_id : ℤ) (w : World be)
      → members (refuse_reenable lib cfg be prefix name user_id group_id w).1 ≡ members w
  unfolding refuse_reenable ◌>>=◌ ◌>>◌ continue quietly answer log_audit query
  refuse-members name user_id group_id w = by_faults w.db.faults
    where
      by_faults :
          (fs : List Bool)
          → members
              (refuse_reenable lib cfg be prefix name user_id group_id
                (record w { db = record w.db { faults = fs } })).1
            ≡ members w
      by_faults [] = refl
      by_faults (true ∷ fs) = refl
      by_faults (false ∷ fs) = refl

  refuse_next :
      (name : Text) (user_id group_id : ℤ) (w : World be)
      → (refuse_reenable lib cfg be prefix name user_id group_id w).0 ≢ next tt
  unfolding refuse_reenable ◌>>=◌ ◌>>◌ continue quietly answer
  refuse_next name user_id group_id w e = ground (arith, e)

  -- The end of the check, for what the access query answers.
  by_access : Text → ℤ → ℤ → Bool → Handler be (Unit {0})
  by_access name user_id group_id allowed =
      if allowed then pure tt else refuse_reenable lib cfg be prefix name user_id group_id

  by_access_lem :
      (name : Text) (user_id group_id : ℤ) (allowed : Bool) (w : World be)
      → (members (by_access name user_id group_id allowed w).1 ≡ members w)
        × ((by_access name user_id group_id allowed w).0 ≡ next tt → allowed ≡ true)
  unfolding by_access pure
  by_access_lem name user_id group_id true w = (refl, λ h. refl)
  by_access_lem name user_id group_id false w =
      (refuse-members name user_id group_id w, λ h. absurd (refuse_next name user_id group_id w h))

  access_asked :
      (name : Text) (group_id : ℤ) (w : World be)
      → Same w (internal {be = be} (user_has_group_access name group_id true) w).1
        × ((allowed : Bool)
            → (internal {be = be} (user_has_group_access name group_id true) w).0 ≡ next allowed
            → allowed ≡ has_access w.db name group_id true)
  unfolding user_has_group_access
  access_asked name group_id w = (
    internal-roster (λ d. has_access d name group_id true) w (λ fs. refl),
    λ allowed h. internal_next (λ d. has_access d name group_id true) w allowed (λ fs. refl) h,
  )

  pub check_access_lem :
      (name : Text) (user_id group_id : ℤ) (admin : Bool) (w : World be)
      → (members (check_access lib cfg be prefix name user_id group_id admin w).1 ≡ members w)
        × ((check_access lib cfg be prefix name user_id group_id admin w).0 ≡ next tt
            → (admin ≡ true) ⊎ (has_access w.db name group_id true ≡ true))
  unfolding check_access by_access pure
  check_access_lem name user_id group_id true w = (refl, λ h. inl refl)
  check_access_lem name user_id group_id false w =
      let asked = internal {be = be} (user_has_group_access name group_id true) in
      let (same, given) = access_asked name group_id w in
      (
        bind-Keeps members asked (by_access name user_id group_id) w (ap (λ r. r.1) same)
            (λ allowed. (by_access_lem name user_id group_id allowed (asked w).1).0),
        λ h.
            let (allowed, answer, rest) =
              bind_next asked (by_access name user_id group_id) w tt h in
            inr (
              sym (given allowed answer)
              ∙ (by_access_lem name user_id group_id allowed (asked w).1).1 rest),
      )
