-- ===== src/Firewall/Manager/Loops.antt =====
-- The loops of Manager.Reconcile and RemoveUserRules, over a backend that obeys the laws.
use nft_okboy_fleet.Prelude.{
  ℤ, ℤ-discrete, Text, Text-discrete, Bool, true, false, Option, none, some, List, [], ◌∷◌, ◌++◌,
  map, ◌≡◌, ◌≢◌, ◌<◌, refl, ap, All, arith, has, keep, count, ◌==◌, inl, inr, Bool-cases,
  Option-cases, ==_refl, ◌⊎◌,
}
use nft_okboy_fleet.Firewall.{
  Rule, PortProto, FirewallBackend, FwError, host_rule, inactive, failed, Action,
}
use nft_okboy_fleet.Firewall.Comment.{group_from_comment, comment_for}
use nft_okboy_fleet.Firewall.Comment.Laws.{has_prefix-comment_for, group_from_comment-comment_for}
use nft_okboy_fleet.Firewall.Lawful.{Key, key_of, of_user, Laws, IsPlain}
use nft_okboy_fleet.Firewall.Lawful.Deletes.{deletes, AllDone}
use nft_okboy_fleet.Firewall.Lawful.Extends.{Extends, Extends-refl, Extends-trans}
use nft_okboy_fleet.Firewall.Manager.{
  UserKey, UserKey-discrete, names, Reconciled, after_add, rule_key, group_key, open_step,
  open_groups, is_stale, close_step, close_rules, remove_step, remove_listed,
}

abbrev pub handles : (Rule → Bool) → List Rule → List ℤ
handles p rs = map (λ r. r.handle) (keep p rs)

append_ne {ℓ} : {A : Type ℓ} (xs : List A) (x : A) → xs ++ x ∷ [] ≢ []
append_ne [] x h = cc
append_ne (y ∷ xs) x h = cc

module _ (be : FirewallBackend) where
  module _ (prefix user client_ip : Text) (enabled : List (Text × PortProto)) where
    abbrev stale : Rule → Bool
    stale = is_stale be prefix user client_ip enabled

    -- The loop over the listed rules deletes the stale ones and reports nothing as an error.
    pub state-close_rules :
        (rs : List Rule) (p : Reconciled be)
        → (close_rules be prefix user client_ip enabled rs p).state
          ≡ deletes be (handles stale rs) p.state
    unfolding close_rules close_step
    state-close_rules [] p = refl
    state-close_rules (r ∷ rs) p =
        ground (arith, state-close_rules rs (close_step be prefix user client_ip enabled r p))

    pub errs-close_rules :
        (rs : List Rule) (p : Reconciled be)
        → (close_rules be prefix user client_ip enabled rs p).errs ≡ p.errs
    unfolding close_rules close_step
    errs-close_rules [] p = refl
    errs-close_rules (r ∷ rs) p =
        ground (arith, errs-close_rules rs (close_step be prefix user client_ip enabled r p))

  pub state-remove_listed :
      (user : Text) (rs : List Rule) (p : List FwError × be.State)
      → (remove_listed be user rs p).1 ≡ deletes be (handles (λ r. r.user == user) rs) p.1
  unfolding remove_listed remove_step
  state-remove_listed user [] p = refl
  state-remove_listed user (r ∷ rs) p =
      ground (arith, state-remove_listed user rs (remove_step be user r p))

  errs-remove_listed :
      (user : Text) (rs : List Rule) (p : List FwError × be.State)
      → (remove_listed be user rs p).0 ≡ []
      → p.0 ≡ []
  unfolding remove_listed remove_step
  errs-remove_listed user [] p h = h
  errs-remove_listed user (r ∷ rs) p h =
      ground
        (arith, errs-remove_listed user rs (remove_step be user r p) h, append_ne {A = FwError} p.0)

  pub done-remove_listed :
      (user : Text) (rs : List Rule) (p : List FwError × be.State)
      → (remove_listed be user rs p).0 ≡ []
      → AllDone be (handles (λ r. r.user == user) rs) p.1
  unfolding remove_listed remove_step
  done-remove_listed user [] p h = tt
  done-remove_listed user (r ∷ rs) p h =
      let later = done-remove_listed user rs (remove_step be user r p) h in
      let none_yet = errs-remove_listed user rs (remove_step be user r p) h in
      elim (Bool-cases (r.user == user)) [
        | inl own ↦
            let ok : (be.delete_by_handle r.handle p.1).0 ≡ none =
              elim (Option-cases (be.delete_by_handle r.handle p.1).0) [
                | inl ok ↦ ok
                | inr (e, bad) ↦ absurd (append_ne p.0 e (rw (own, bad) at none_yet))
              ] in
            rw own (ok, rw (own, ok) at later)
        | inr other ↦ rw other (rw other at later)
      ]

-- Groups with plain names that are among the enabled ones.
abbrev pub AreKnown : List (Text × PortProto) → List (Text × PortProto) → Type 0
AreKnown enabled = All (λ g. IsPlain g.0 × (has g.0 (names enabled) ≡ true))

module _ (be : FirewallBackend) (laws : Laws be) (user client_ip : Text)
    (enabled : List (Text × PortProto)) where
  open laws use {rules, IsValid}

  -- A rule that the loop adds: of the user, at the client's address, for one of the groups.
  pub record IsOpening (r : Rule) : Type 0 where
    pub own : of_user laws.prefix user r ≡ true
    pub at_client : r.ip ≡ client_ip
    pub group_known : has (group_from_comment laws.prefix user r.comment) (names enabled) ≡ true

  -- The host answers no addition by a rule of its own.
  abbrev pub HasNoHostRules : Type 0
  HasNoHostRules =
      (k : Key) (s : be.State) (a : Action)
      → (be.add_rule k.ip k.port k.user k.proto k.group s).0 ≢ some (host_rule a)

  -- The rules that let the client in as a member of the group.
  abbrev pub opens : Text × PortProto → Rule → Bool
  opens g r = rule_key be laws.prefix user client_ip r == group_key be laws.prefix user client_ip g

  module _ (plain : IsPlain user) (g : Text × PortProto) (p : Reconciled be)
      (v : IsValid p.state) where
    abbrev asked : Option FwError × be.State
    asked = be.add_rule client_ip g.1.port user g.1.proto g.0 p.state

    abbrev key : Key
    key = record { ip = client_ip; proto = g.1.proto; user = user; group = g.0; port = g.1.port }

    asked_IsValid : IsValid asked.1
    asked_IsValid = laws.add_valid key p.state v

    module _ (named : IsPlain g.0) (known : has g.0 (names enabled) ≡ true) where
      one_opening :
          (r : Rule) → r.comment ≡ comment_for laws.prefix user g.0 → r.ip ≡ client_ip → IsOpening r
      one_opening r c i = record {
        own =
            rw (c, has_prefix-comment_for laws.prefix user user g.0 plain.0 plain.0 named.1)
              (==_refl user);
        at_client = i;
        group_known =
            rw
              (
                c,
                group_from_comment-comment_for laws.prefix user user g.0 plain.0 plain.0 named.0
                    named.1,
              )
              (ground (arith, known, ==_refl user));
      }

      asked_Extends : Extends IsOpening (rules p.state) (rules asked.1)
      unfolding key_of
      asked_Extends = elim (Option-cases asked.0) [
        | inl ok ↦
            let a = laws.add_done key p.state (plain, named) v ok in
            record {
              news = a.rule ∷ [];
              counts = λ q. omega (arith, a.counts q);
              fresh = (a.fresh, tt);
              each = (one_opening a.rule a.comment (ap (λ (k : Key). k.ip) a.key), tt);
            }
        | inr (e, bad) ↦
            rw (laws.add_failed key p.state (ground arith)) (Extends-refl IsOpening (rules p.state))
      ]

      asked_opens : asked.0 ≡ none → 0 < count (opens g) (rules asked.1)
      unfolding key_of rule_key group_key
      asked_opens ok =
          let a = laws.add_done key p.state (plain, named) v ok in
          let c : group_from_comment laws.prefix user a.rule.comment ≡ g.0 =
            rw
              (
                a.comment,
                group_from_comment-comment_for laws.prefix user user g.0 plain.0 plain.0 named.0
                    named.1,
              )
              (ground (arith, ==_refl user)) in
          let same : opens g a.rule ≡ true = ground (arith, a.key, c) in
          ground (arith, a.counts (opens g), same)

  module _ (existing : List UserKey) where
    abbrev pub step : Text × PortProto → Reconciled be → Reconciled be
    step = open_step be laws.prefix user client_ip existing

    abbrev pub loop : List (Text × PortProto) → Reconciled be → Reconciled be
    loop = open_groups be laws.prefix user client_ip existing

    abbrev pub known_key : Text × PortProto → Bool
    known_key g = has (group_key be laws.prefix user client_ip g) existing

    step_known : (g : Text × PortProto) (p : Reconciled be) → known_key g ≡ true → step g p ≡ p
    unfolding open_step
    step_known g p h = ground (arith, h)

    module _ (g : Text × PortProto) (p : Reconciled be) (new : known_key g ≡ false) where
      abbrev reply : Option FwError × be.State
      reply = be.add_rule client_ip g.1.port user g.1.proto g.0 p.state

      state-step : (step g p).state ≡ reply.1
      unfolding open_step after_add
      state-step = ground (arith, new)

      errs-step : HasNoHostRules → (step g p).errs ≡ [] → reply.0 ≡ none
      unfolding open_step after_add key_of
      errs-step host e = elim (Option-cases reply.0) [
        | inl ok ↦ ok
        | inr (inactive, bad) ↦ absurd (append_ne p.errs inactive (rw (new, bad) at e))
        | inr (failed, bad) ↦ absurd (append_ne p.errs failed (rw (new, bad) at e))
        | inr (host_rule a, bad) ↦ absurd (host (key_for g) p.state a bad)
      ]
        where
          key_for : Text × PortProto → Key
          key_for g = record {
            ip = client_ip;
            proto = g.1.proto;
            user = user;
            group = g.0;
            port = g.1.port;
          }

    step-IsValid :
        (g : Text × PortProto) (p : Reconciled be) → IsValid p.state → IsValid (step g p).state
    step-IsValid g p v = elim (Bool-cases (known_key g)) [
      | inl old ↦ rw (step_known g p old) v
      | inr new ↦ rw (state-step g p new) (
          laws.add_valid
            (record {
              ip = client_ip;
              proto = g.1.proto;
              user = user;
              group = g.0;
              port = g.1.port;
            })
            p.state v)
    ]

    pub loop-IsValid :
        (gs : List (Text × PortProto)) (p : Reconciled be)
        → IsValid p.state
        → IsValid (loop gs p).state
    unfolding open_groups
    loop-IsValid [] p v = v
    loop-IsValid (g ∷ gs) p v = loop-IsValid gs (step g p) (step-IsValid g p v)

    pub loop-Extends :
        IsPlain user
        → (gs : List (Text × PortProto)) (p : Reconciled be) → AreKnown enabled gs
        → IsValid p.state
        → Extends IsOpening (rules p.state) (rules (loop gs p).state)
    unfolding open_groups
    loop-Extends plain [] p k v = Extends-refl IsOpening (rules p.state)
    loop-Extends plain (g ∷ gs) p k v =
        let rest = loop-Extends plain gs (step g p) k.1 (step-IsValid g p v) in
        let first : Extends IsOpening (rules p.state) (rules (step g p).state) =
          elim (Bool-cases (known_key g)) [
            | inl old ↦ rw (step_known g p old) (Extends-refl IsOpening (rules p.state))
            | inr new ↦ rw (state-step g p new) (asked_Extends plain g p v k.0.0 k.0.1)
          ] in
        Extends-trans IsOpening _ (rules (step g p).state) _ first rest

    errs-loop :
        (gs : List (Text × PortProto)) (p : Reconciled be) → (loop gs p).errs ≡ [] → p.errs ≡ []
    unfolding open_groups open_step after_add
    errs-loop [] p e = e
    errs-loop (g ∷ gs) p e = ground (
      arith,
      errs-loop gs (open_step be laws.prefix user client_ip existing g p) e,
      append_ne {A = FwError} p.errs inactive,
      append_ne {A = FwError} p.errs failed,
    )

    -- A loop that reports no error has opened every group that had no rule.
    pub loop-opens :
        IsPlain user
        → HasNoHostRules
        → (gs : List (Text × PortProto)) (p : Reconciled be) → AreKnown enabled gs
        → IsValid p.state
        → (loop gs p).errs ≡ []
        → All (λ g. (known_key g ≡ true) ⊎ (0 < count (opens g) (rules (loop gs p).state))) gs
    unfolding open_groups
    loop-opens plain host [] p k v e = tt
    loop-opens plain host (g ∷ gs) p k v e = (
      elim (Bool-cases (known_key g)) [
        | inl old ↦ inl old
        | inr new ↦ inr (
            omega (
              arith,
              (loop-Extends plain gs (step g p) k.1 (step-IsValid g p v)).counts (opens g),
              rw (← state-step g p new) at (
                  asked_opens plain g p v k.0.0 k.0.1
                    (errs-step g p new host (errs-loop gs (step g p) e))),
            ))
      ],
      loop-opens plain host gs (step g p) k.1 (step-IsValid g p v) e,
    )
