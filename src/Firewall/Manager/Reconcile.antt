-- ===== src/Firewall/Manager/Reconcile.antt =====
-- What Manager.Reconcile guarantees: the groups that it opens, the rules that it closes, and whose
-- rules it leaves alone.
use nft_okboy_fleet.Prelude.{
  has, ◌∷◌, ◌<◌, ◌≡◌, refl, ◌∙◌, Bool, true, false, none, List, [], nat_discrete, Bool-discrete, ℤ,
  ℤ-discrete, count, All, Text, Text-discrete, ◌⊎◌, inl, inr, arith,
}
use nft_okboy_fleet.Firewall.{Rule, PortProto, FirewallBackend, Listing, listed, unlisted}
use nft_okboy_fleet.Firewall.Lawful.{of_user, Laws}
use nft_okboy_fleet.Firewall.Manager.{reconcile, is_stale, names}
use nft_okboy_fleet.Firewall.Comment.{group_from_comment}
use nft_okboy_fleet.Firewall.Manager.Loops.{HasNoHostRules, opens, AreKnown}
use nft_okboy_fleet.Firewall.Lawful.{IsPlain}
use nft_okboy_fleet.Firewall.Manager.Frame.{
  run_listed, run_unlisted, frame, opens_listed, closes_listed,
}

module _ (be : FirewallBackend) (laws : Laws be) (user client_ip : Text)
    (enabled : List (Text × PortProto)) (plain : IsPlain user) (known : AreKnown enabled enabled)
    (s : be.State) (v : laws.IsValid s) where
  open laws use {rules}

  valid : laws.IsValid (be.list_user_rules user s).1
  valid = laws.list_user_valid user s v

  -- Over a backend that obeys the laws and never answers with a host's own rule, for a user and
  -- groups whose names are nonempty and have no colon: from a valid state, a reconcile without an
  -- error leaves a rule at the client's address for every enabled group, on its port and
  -- protocol.
  pub reconcile-opens :
      HasNoHostRules be laws user client_ip enabled
      → (reconcile be laws.prefix user client_ip enabled s).errs ≡ []
      → All
          (λ g.
            0
            < count
                (opens be laws user client_ip enabled g)
                (rules (reconcile be laws.prefix user client_ip enabled s).state))
          enabled
  reconcile-opens host e = go (be.list_user_rules user s).0 refl
    where
      go :
          (l : Listing)
          → (be.list_user_rules user s).0 ≡ l
          → All
              (λ g.
                0
                < count
                    (opens be laws user client_ip enabled g)
                    (rules (reconcile be laws.prefix user client_ip enabled s).state))
              enabled
      go (unlisted err) h =
          absurd ((run_unlisted be laws user client_ip enabled plain known s err h).0 e)
      go (listed rs) h =
          let same = run_listed be laws user client_ip enabled plain known s v rs h in
          rw same
            (opens_listed be laws user client_ip enabled plain known _ valid host (rw same at e))

  none_stale :
      (rs : List Rule)
      → (be.list_user_rules user s).0 ≡ listed rs
      → ((h : ℤ) (t : be.State) → (be.delete_by_handle h t).0 ≡ none)
      → count
          (is_stale be laws.prefix user client_ip enabled)
          (rules (reconcile be laws.prefix user client_ip enabled s).state)
        ≡ 0
  none_stale rs h fine =
      rw (run_listed be laws user client_ip enabled plain known s v rs h)
        (closes_listed be laws user client_ip enabled plain known _ valid fine)

  -- The group of the user that a rule is for, "" for a rule of no group of the user.
  abbrev pub group_of : Rule → Text
  group_of r = group_from_comment laws.prefix user r.comment

  -- A rule that the user may have: at the client's address and for an enabled group.
  abbrev pub IsCurrent : Rule → Type 0
  IsCurrent r = (r.ip ≡ client_ip) × (has (group_of r) (names enabled) ≡ true)

  not_stale :
      (r : Rule)
      → is_stale be laws.prefix user client_ip enabled r ≡ false
      → (group_of r ≡ []) ⊎ IsCurrent r
  unfolding is_stale
  not_stale r h = elim (Text-discrete (group_of r) []) [
    | yes e ↦ inl e
    | no n ↦ inr (ground (arith, h, n), ground (arith, h, n))
  ]

  All-IsCurrent :
      (rs : List Rule)
      → count (is_stale be laws.prefix user client_ip enabled) rs ≡ 0
      → All (λ r. (group_of r ≡ []) ⊎ IsCurrent r) rs
  All-IsCurrent [] h = tt
  All-IsCurrent (r ∷ rs) h = (not_stale r (ground (arith, h)), All-IsCurrent rs (ground (arith, h)))

  -- Over a backend that obeys the laws and fails no deletion, for a user and groups whose names
  -- are nonempty and have no colon: from a valid state, when the listing succeeds, each managed
  -- rule after a reconcile is of no group of the user, or is at the client's address and for a
  -- group that is enabled, whatever additions fail.
  pub reconcile_closes :
      (rs : List Rule)
      → (be.list_user_rules user s).0 ≡ listed rs
      → ((h : ℤ) (t : be.State) → (be.delete_by_handle h t).0 ≡ none)
      → All
          (λ r. (group_of r ≡ []) ⊎ IsCurrent r)
          (rules (reconcile be laws.prefix user client_ip enabled s).state)
  reconcile_closes rs h fine =
      All-IsCurrent (rules (reconcile be laws.prefix user client_ip enabled s).state)
        (none_stale rs h fine)

  -- Over every backend that obeys the laws, for a user and groups whose names are nonempty and
  -- have no colon: from a valid state, whatever the backend refuses, a reconcile for the user
  -- neither adds nor deletes a managed rule whose comment names another owner.
  pub reconcile_frame :
      (q : Rule → Bool)
      → ((r : Rule) → of_user laws.prefix user r ≡ true → q r ≡ false)
      → count q (rules (reconcile be laws.prefix user client_ip enabled s).state)
        ≡ count q (rules s)
  reconcile_frame q apart = go (be.list_user_rules user s).0 refl
    where
      go :
          (l : Listing)
          → (be.list_user_rules user s).0 ≡ l
          → count q (rules (reconcile be laws.prefix user client_ip enabled s).state)
            ≡ count q (rules s)
      go (unlisted err) h =
          rw
            (
              (run_unlisted be laws user client_ip enabled plain known s err h).1,
              laws.list_user_keeps,
            )
            refl
      go (listed rs) h = rw (run_listed be laws user client_ip enabled plain known s v rs h) (
          frame be laws user client_ip enabled plain known _ valid q apart
          ∙ rw laws.list_user_keeps refl)
