-- ===== src/Firewall/Manager.antt =====
-- The per-user policy of Manager (internal/firewall/manager.go): Reconcile and RemoveUserRules. AddRule,
-- RemoveRule and SyncGuard of Manager only log around the backend's operation. A Go map in the
-- order in which it is walked is the list of its entries; errors.Join is the list of the errors.
pub mod Loops
pub mod User
pub mod Frame
pub mod Reconcile
use nft_okboy_fleet.Prelude.{
  ℕ, ℤ, ℤ-discrete, Text, Text-discrete, Bool, true, false, Option, none, some, List, [], ◌∷◌, ◌++◌,
  ◌+◌, ◌&&◌, ◌||◌, not, ◌==◌, if◌then◌else◌, has, map,
}
use nft_okboy_fleet.Firewall.{
  Rule, PortProto, Action, allow, deny, reject, limit, FwError, inactive, host_rule, failed,
  Listing, listed, unlisted, FirewallBackend,
}
use nft_okboy_fleet.Firewall.Comment.{group_from_comment}

-- The identity by which Reconcile looks up a rule of the user.
pub record UserKey : Type 0 where
  pub ip : Text
  pub port : ℤ
  pub proto : Text
  pub group : Text

instance unfoldable pub UserKey-discrete : Discrete UserKey
unfolding Text-discrete ℤ-discrete
UserKey-discrete = hlevel (Text-discrete, ℤ-discrete)

abbrev pub denies : Action → Bool
denies deny = true
denies reject = true
denies allow = false
denies limit = false

-- `enabled[group]`, present or not
abbrev pub names : List (Text × PortProto) → List Text
names = map (λ e. e.0)

module _ (be : FirewallBackend) where
  -- (added, removed, denied, err) and the backend's state.
  pub record Reconciled : Type 0 where
    pub added : List Text
    pub removed : List Text
    pub denied : List Text
    pub errs : List FwError
    pub state : be.State

  -- What AddRule's answer does to the results, for the group.
  unfoldable pub after_add : Text → Option FwError → Reconciled → Reconciled
  after_add group none p = record p { added = p.added ++ group ∷ [] }
  after_add group (some (host_rule a)) p =
      if denies a then record p { denied = p.denied ++ group ∷ [] } else p
  after_add group (some e) p = record p { errs = p.errs ++ e ∷ [] }

  module _ (prefix user client_ip : Text) where
    unfoldable pub rule_key : Rule → UserKey
    rule_key r = record {
      ip = r.ip;
      port = r.port;
      proto = r.proto;
      group = group_from_comment prefix user r.comment;
    }

    unfoldable pub group_key : Text × PortProto → UserKey
    group_key (group, pp) = record {
      ip = client_ip;
      port = pp.port;
      proto = pp.proto;
      group = group;
    }

    -- One round of the loop over the enabled groups.
    unfoldable pub open_step : List UserKey → Text × PortProto → Reconciled → Reconciled
    unfolding after_add
    open_step existing (group, pp) p =
        if has (group_key (group, pp)) existing
        then p
        else (let (e, s) = be.add_rule client_ip pp.port user pp.proto group p.state in
            after_add group e (record p { state = s }))

    unfoldable pub open_groups : List UserKey → List (Text × PortProto) → Reconciled → Reconciled
    open_groups existing [] p = p
    open_groups existing (g ∷ enabled) p = open_groups existing enabled (open_step existing g p)

    -- A rule of the user for a group that is not enabled, or at another address.
    unfoldable pub is_stale : List (Text × PortProto) → Rule → Bool
    is_stale enabled r =
        let group = group_from_comment prefix user r.comment in
        not (group == []) && (not (has group (names enabled)) || not (r.ip == client_ip))

    -- One round of the loop over the listed rules.
    unfoldable pub close_step : List (Text × PortProto) → Rule → Reconciled → Reconciled
    close_step enabled r p =
        if is_stale enabled r
        then (let (e, s) = be.delete_by_handle r.handle p.state in
            elim e [
              | none ↦ record p {
                removed = p.removed ++ group_from_comment prefix user r.comment ∷ [];
                state = s;
              }
              | some _ ↦ record p { state = s }
            ])
        else p

    unfoldable pub close_rules : List (Text × PortProto) → List Rule → Reconciled → Reconciled
    close_rules enabled [] p = p
    close_rules enabled (r ∷ rules) p = close_rules enabled rules (close_step enabled r p)

    abbrev pub nothing_done : be.State → Reconciled
    nothing_done s = record { added = []; removed = []; denied = []; errs = []; state = s }

    -- The two loops, on the listed rules.
    unfoldable pub reconcile_listed : List (Text × PortProto) → List Rule → be.State → Reconciled
    reconcile_listed enabled rules s =
        close_rules enabled rules (open_groups (map rule_key rules) enabled (nothing_done s))

    unfoldable pub reconcile : List (Text × PortProto) → be.State → Reconciled
    unfolding reconcile_listed
    reconcile enabled s =
        let (rules, s') = be.list_user_rules user s in
        elim rules [
          | unlisted e ↦ record { added = []; removed = []; denied = []; errs = e ∷ []; state = s' }
          | listed rs ↦ reconcile_listed enabled rs s'
        ]

  -- RemoveUserRules: one round, the loop, and the whole.
  unfoldable pub remove_step : Text → Rule → List FwError × be.State → List FwError × be.State
  remove_step user r (errs, s) =
      if r.user == user
      then (let (e, s') = be.delete_by_handle r.handle s in
          elim e [ none ↦ (errs, s') | some e ↦ (errs ++ e ∷ [], s') ])
      else (errs, s)

  unfoldable pub remove_listed :
      Text → List Rule → List FwError × be.State → List FwError × be.State
  remove_listed user [] p = p
  remove_listed user (r ∷ rules) p = remove_listed user rules (remove_step user r p)

  unfoldable pub remove_user_rules : Text → be.State → List FwError × be.State
  unfolding remove_listed
  remove_user_rules user s =
      let (rules, s') = be.list_managed s in
      elim rules [ unlisted e ↦ (e ∷ [], s') | listed rs ↦ remove_listed user rs ([], s') ]
