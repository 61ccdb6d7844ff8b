-- ===== src/Firewall/Manager/Frame.antt =====
-- The steps towards the guarantees of Manager.Reconcile, on the listed rules.
use nft_okboy_fleet.Firewall.Comment.Laws.{owner_of_group}
use nft_okboy_fleet.Prelude.{
  All, Text, arith, count, inl, inr, keep, not, ◌&&◌, ◌<◌, ◌≡◌, ◌⊎◌, count-keep, ◌≢◌, sym, count-le,
  count_mono, ◌∙◌, Text-discrete, ℤ-discrete,
}
use nft_okboy_fleet.Firewall.{
  Rule, PortProto, FirewallBackend, FwError, listed, unlisted, List, [], false, Bool, ℤ, true, none,
  ◌∷◌,
}
use nft_okboy_fleet.Firewall.Lawful.{by_handle, of_user, Laws}
use nft_okboy_fleet.Firewall.Lawful.Deletes.{
  listed_in, deletes, AllDone, deletes_keeps, deletes_drops, deletes_rules,
}
use nft_okboy_fleet.Firewall.Lawful.Extends.{Extends, count_none, count_spared}
use nft_okboy_fleet.Firewall.Manager.{
  Reconciled, names, reconcile, reconcile_listed, nothing_done, is_stale, rule_key, group_key,
  open_groups, map, has, UserKey-discrete,
}
use nft_okboy_fleet.Firewall.Manager.Loops.{
  handles, state-close_rules, errs-close_rules, IsOpening, HasNoHostRules, opens, AreKnown,
  loop-IsValid, loop-Extends, loop-opens,
}
use nft_okboy_fleet.Firewall.Lawful.{IsPlain}
use nft_okboy_fleet.Firewall.Manager.User.{handles_spare, handles_there, handles_cover}

module _ (be : FirewallBackend) (laws : Laws be) (user client_ip : Text)
    (enabled : List (Text × PortProto)) (plain : IsPlain user)
    (known : AreKnown enabled enabled) where
  open laws use {rules, IsValid}

  abbrev pub run : be.State → Reconciled be
  run = reconcile be laws.prefix user client_ip enabled

  abbrev pub stale : Rule → Bool
  stale = is_stale be laws.prefix user client_ip enabled

  abbrev pub own : Rule → Bool
  own = of_user laws.prefix user

  stale-own : (r : Rule) → stale r ≡ true → own r ≡ true
  unfolding is_stale
  stale-own r h = owner_of_group laws.prefix user r.comment (ground arith)

  opening-stale : (r : Rule) → IsOpening be laws user client_ip enabled r → stale r ≡ false
  unfolding is_stale
  opening-stale r o = ground (arith, o.at_client, o.group_known)

  module _ (s : be.State) (v : IsValid s) where
    abbrev pub own_rules : List Rule
    own_rules = keep own (rules s)

    abbrev pub opened : Reconciled be
    opened =
        open_groups be laws.prefix user client_ip
          (map (rule_key be laws.prefix user client_ip) own_rules) enabled
          (nothing_done be laws.prefix user client_ip s)

    abbrev gone : List ℤ
    gone = handles stale own_rules

    abbrev pub final : Reconciled be
    final = reconcile_listed be laws.prefix user client_ip enabled own_rules s

    opened_IsValid : IsValid opened.state
    opened_IsValid = loop-IsValid be laws user client_ip enabled _ enabled _ v

    grown : Extends (IsOpening be laws user client_ip enabled) (rules s) (rules opened.state)
    grown = loop-Extends be laws user client_ip enabled _ plain enabled _ known v

    state-final : final.state ≡ deletes be gone opened.state
    unfolding reconcile_listed
    state-final = state-close_rules be laws.prefix user client_ip enabled own_rules opened

    gone_there :
        (h : ℤ) → has h gone ≡ true → 0 < count (λ r. stale r && by_handle h r) (rules opened.state)
    gone_there h e = omega (
      arith,
      handles_there stale own_rules h e,
      grown.counts (λ r. stale r && by_handle h r),
      count-keep (λ r. stale r && by_handle h r) own (rules s),
      count-le (λ r. stale r && by_handle h r) own (rules s),
    )

    -- A rule that is not stale is not deleted.
    spared :
        (q : Rule → Bool)
        → ((r : Rule) → stale r ≡ true → q r ≡ false)
        → count q (rules final.state) ≡ count q (rules opened.state)
    spared q apart = rw state-final (
        omega (
          arith,
          deletes_keeps be laws gone opened.state opened_IsValid q,
          deletes_drops be laws gone opened.state opened_IsValid q,
          count_spared q gone (rules opened.state) (
              handles_spare stale q gone (rules opened.state)
                (laws.unique opened.state opened_IsValid) gone_there apart),
        ))

    pub frame :
        (q : Rule → Bool)
        → ((r : Rule) → own r ≡ true → q r ≡ false)
        → count q (rules final.state) ≡ count q (rules s)
    frame q apart = omega (
      arith,
      spared q (λ r h. apart r (stale-own r h)),
      grown.counts q,
      count_none (IsOpening be laws user client_ip enabled) q grown.news (λ r o. apart r o.own)
          grown.each,
    )

    abbrev pub is_open : Text × PortProto → Rule → Bool
    is_open = opens be laws user client_ip enabled

    unstale :
        (g : Text × PortProto)
        → has g.0 (names enabled) ≡ true
        → (r : Rule) → stale r ≡ true
        → is_open g r ≡ false
    unfolding is_stale rule_key group_key
    unstale g k r h = ground (arith, h, k)

    key_counts :
        (g : Text × PortProto) (rs : List Rule)
        → has
            (group_key be laws.prefix user client_ip g)
            (map (rule_key be laws.prefix user client_ip) rs)
          ≡ true
        → 0 < count (is_open g) rs
    key_counts g [] h = ground arith
    key_counts g (r ∷ rs) h = ground (arith, key_counts g rs)

    errs-final : final.errs ≡ [] → opened.errs ≡ []
    unfolding reconcile_listed
    errs-final e = sym (errs-close_rules be laws.prefix user client_ip enabled own_rules opened) ∙ e

    All-open :
        (gs : List (Text × PortProto))
        → AreKnown enabled gs
        → All
            (λ g.
              (has
                  (group_key be laws.prefix user client_ip g)
                  (map (rule_key be laws.prefix user client_ip) own_rules)
                ≡ true)
              ⊎ (0 < count (is_open g) (rules opened.state)))
            gs
        → All (λ g. 0 < count (is_open g) (rules final.state)) gs
    All-open [] k h = tt
    All-open (g ∷ gs) k h = (
      rw (spared (is_open g) (unstale g k.0.1)) (elim h.0 [
        | inl old ↦ omega (
          arith,
          key_counts g own_rules old,
          count-keep (is_open g) own (rules s),
          count-le (is_open g) own (rules s),
          grown.counts (is_open g),
        )
        | inr new ↦ new
      ]),
      All-open gs k.1 h.1,
    )

    pub opens_listed :
        HasNoHostRules be laws user client_ip enabled
        → final.errs ≡ []
        → All (λ g. 0 < count (is_open g) (rules final.state)) enabled
    opens_listed host e = All-open enabled known (
        loop-opens be laws user client_ip enabled _ plain host enabled
          (nothing_done be laws.prefix user client_ip s) known v (errs-final e))

    pub closes_listed :
        ((h : ℤ) (t : be.State) → (be.delete_by_handle h t).0 ≡ none)
        → count stale (rules final.state) ≡ 0
    closes_listed fine = rw state-final (
        omega (
          arith,
          deletes_rules be laws gone opened.state opened_IsValid (always gone opened.state) stale,
          grown.counts (λ r. stale r && not (listed_in gone r)),
          count_none (IsOpening be laws user client_ip enabled)
              (λ r. stale r && not (listed_in gone r)) grown.news
              (λ r o. ground (arith, opening-stale r o)) grown.each,
          handles_cover stale own_rules,
          count-keep (λ r. stale r && not (listed_in gone r)) own (rules s),
          count_mono (λ r. stale r && not (listed_in gone r))
              (λ r. (stale r && not (listed_in gone r)) && own r) (rules s)
              (λ r h. ground (arith, h, stale-own r)),
        ))
      where
        always : (hs : List ℤ) (t : be.State) → AllDone be hs t
        always [] t = tt
        always (h ∷ hs) t = (fine h t, always hs (be.delete_by_handle h t).1)

  abbrev pub after_list : be.State → be.State
  after_list s = (be.list_user_rules user s).1

  pub run_listed :
      (s : be.State) (v : IsValid s) (rs : List Rule)
      → (be.list_user_rules user s).0 ≡ listed rs
      → run s ≡ final (after_list s) (laws.list_user_valid user s v)
  unfolding reconcile
  run_listed s v rs h =
      rw (laws.list_user_keeps user s, ← laws.list_user_all user s rs v h) (ground (arith, h))

  pub run_unlisted :
      (s : be.State) (e : FwError)
      → (be.list_user_rules user s).0 ≡ unlisted e
      → ((run s).errs ≢ []) × ((run s).state ≡ after_list s)
  unfolding reconcile
  run_unlisted s e h = (ground (arith, h), ground (arith, h))
