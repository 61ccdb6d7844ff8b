-- ===== src/Agent.antt =====
-- The edge agent (internal/agent/agent.go): what it accepts of a hub's answer, and one cycle of its loop. The
-- hub's answer to a pull, the parsing of IP addresses and the success of writing the state file come
-- from outside; logging is not modelled, but for the conditions that are remembered so as to be
-- logged once.
pub mod Filter
pub mod Cycle
pub mod OverNft
mod Tests
use nft_okboy_fleet.Prelude.{
  ℕ, zero, suc, ◌+◌, ◌-◌, ◌*◌, ◌/◌, ◌%◌, ◌^◌, ◌≤◌, ◌<◌, ◌≡◌, refl, sym, ap, ◌∙◌, ◌≢◌, ◌↔◌, ◌⊎◌, inl,
  inr, Bool, true, false, ◌&&◌, ◌||◌, not, Option, none, some, List, [], ◌∷◌, ◌++◌, map, arith, ltb,
  leb, if◌then◌else◌, ◌==◌, ==_refl, nat_discrete, Bool-discrete, Bool-cases, Option-cases, is_some,
  ℤ, pos, negsuc, ℤ-discrete, pos_part, neg_part, sub_ℕ, ◌-ℤ◌, ltℤ, leℤ, wrap64, neg64, length,
  count, keep, any, null, All, All-append, has, Text, Text-discrete, text, has_prefix, strip_prefix,
  cut, count_ext, count-keep, count-le, count_mono, count-append,
}
use nft_okboy_fleet.Firewall.{
  Rule, PortProto, PortProto-discrete, FirewallBackend, FwError, port_in_range, known_proto,
}
use nft_okboy_fleet.Firewall.Names.{valid_name}
use nft_okboy_fleet.Firewall.ReconcileAll.{reconcile_all, Outcome}

-- A rule as the hub sends it.
pub record HubRule : Type 0 where
  pub ip : Text
  pub port : ℤ
  pub proto : Text
  pub user : Text
  pub group : Text

-- What a pull comes to: errRevoked (HTTP 401), any other failure, or an answer with `ok: true`. The
-- ports are `none` for a hub too old to send them.
pub data Pull : Type 0 where
  revoked unavailable : Pull
  answer : List HubRule → Option (List PortProto) → Pull

pub record Options : Type 0 where
  pub allowed_ports : List ℤ
  pub guard : Bool
  pub has_state_file : Bool

-- `state`: `ports` and `have_ports` are the guard last applied, `unguarded` the hub's ports last
-- reported as outside the allowed ones.
pub record AgentState : Type 0 where
  pub was_revoked : Bool
  pub warned_no_ports : Bool
  pub unguarded : List PortProto
  pub ports : List PortProto
  pub have_ports : Bool
  pub saved : Bool

abbrev pub well_formed : HubRule → Bool
well_formed d =
    port_in_range d.port && known_proto d.proto && valid_name d.user && valid_name d.group

-- CanonicalIP over net.ParseIP with String: `none` is the empty text.
module _ (canonical_ip : Text → Option Text) where
  unfoldable pub sanitize : List HubRule → List HubRule
  sanitize [] = []
  sanitize (d ∷ desired) = elim (canonical_ip d.ip) [
    | none ↦ sanitize desired
    | some ip ↦
        let rest = sanitize desired in if well_formed d then record d { ip = ip } ∷ rest else rest
  ]

unfoldable pub filter_allowed : List HubRule → List ℤ → List HubRule
filter_allowed desired [] = desired
filter_allowed desired (p ∷ allowed) = keep (λ d. has d.port (p ∷ allowed)) desired

-- splitAllowed: the listed ports, and the others
unfoldable pub split_allowed : List PortProto → List ℤ → List PortProto × List PortProto
split_allowed ports allowed =
    (keep (λ p. has p.port allowed) ports, keep (λ p. not (has p.port allowed)) ports)

unfoldable pub same_ports : List PortProto → List PortProto → Bool
same_ports [] [] = true
same_ports (p ∷ ps) (q ∷ qs) = (p == q) && same_ports ps qs
same_ports _ _ = false

-- saveGuard; `written` says whether writeState succeeds.
unfoldable pub save_guard : Bool → Options → List PortProto → AgentState → AgentState
save_guard written opts ports st =
    let st' =
      if not st.have_ports || not (same_ports st.ports ports)
      then record st { ports = ports; have_ports = true; saved = false }
      else st in
    if not opts.has_state_file || st'.saved
    then st'
    else if written
    then record st' { saved = true }
    else st'

-- &state{}
abbrev pub fresh : AgentState
fresh = record {
  was_revoked = false;
  warned_no_ports = false;
  unguarded = [];
  ports = [];
  have_ports = false;
  saved = false;
}

-- loadGuard
unfoldable pub load_guard : Options → Option (List PortProto) → AgentState → AgentState
load_guard opts file st = if not opts.has_state_file then st else (elim file [
  | none ↦ st
  | some ports ↦ record st { ports = ports; have_ports = true; saved = true }
])

-- The rule that Reconcile passes on: no handle and no comment.
abbrev pub to_rule : HubRule → Rule
to_rule d = record {
  handle = pos 0;
  ip = d.ip;
  port = d.port;
  proto = d.proto;
  user = d.user;
  group = d.group;
  comment = [];
}

module _ (be : FirewallBackend) (canonical_ip : Text → Option Text) where
  unfoldable pub reconcile : List HubRule → be.State → Outcome be
  reconcile desired s = reconcile_all be (map to_rule desired) s

  -- The call of SyncGuard with the ports, and saveGuard when it succeeds.
  unfoldable pub apply_guard :
      (List PortProto → be.State → Option FwError × be.State)
      → Bool
      → Options
      → List PortProto
      → AgentState × be.State
      → AgentState × be.State
  unfolding save_guard
  apply_guard sync written opts ports (st, s) =
      let (e, s') = sync ports s in
      elim e [ none ↦ (save_guard written opts ports st, s') | some _ ↦ (st, s') ]

  unfoldable pub sync_guard :
      Bool → Options → Option (List PortProto) → AgentState × be.State → AgentState × be.State
  unfolding apply_guard split_allowed
  sync_guard written opts hub (st, s) = elim be.sync_guard [
    | none ↦ (st, s)
    | some sync ↦
        if opts.guard
        then (elim hub [
          | none ↦ (record st { warned_no_ports = true }, s)
          | some ports ↦
              let (inside, skipped) = split_allowed ports opts.allowed_ports in
              apply_guard sync written opts inside (record st { unguarded = skipped }, s)
        ])
        else apply_guard sync written opts [] (st, s)
  ]

  unfoldable pub reapply_guard : Options → AgentState → be.State → be.State
  unfolding split_allowed
  reapply_guard opts st s = elim be.sync_guard [
    | none ↦ s
    | some sync ↦
        if not st.have_ports
        then s
        else (sync (if opts.guard then (split_allowed st.ports opts.allowed_ports).0 else []) s).1
  ]

  -- The rest of a cycle, once the hub has answered.
  unfoldable pub after_pull : Bool → Options → Pull → AgentState × be.State → AgentState × be.State
  unfolding reconcile sync_guard
  after_pull written opts revoked (st, s) =
      (record st { was_revoked = true }, (reconcile [] s).state)
  after_pull written opts unavailable (st, s) = (st, s)
  after_pull written opts (answer rules ports) (st, s) =
      let desired = filter_allowed (sanitize canonical_ip rules) opts.allowed_ports in
      sync_guard written opts ports (record st { was_revoked = false }, (reconcile desired s).state)

  -- One cycle: EnsureBase, the last guard, the pull, the rules, the guard.
  unfoldable pub step : Bool → Options → Pull → AgentState × be.State → AgentState × be.State
  unfolding after_pull reapply_guard
  step written opts pull (st, s) =
      let (e, s') = be.ensure_base s in
      elim e [
        | some _ ↦ (st, s')
        | none ↦ after_pull written opts pull (st, reapply_guard opts st s')
      ]

  -- The loop of Run, over the pulls that it makes.
  unfoldable pub cycles :
      Options → List (Bool × Pull) → AgentState × be.State → AgentState × be.State
  cycles opts [] p = p
  cycles opts ((written, pull) ∷ pulls) p = cycles opts pulls (step written opts pull p)

  -- Run, until its context is cancelled; `file` is what the state file holds, `none` when it cannot be
  -- read.
  unfoldable pub run :
      Options
      → Option (List PortProto)
      → List (Bool × Pull)
      → be.State
      → Option FwError × (AgentState × be.State)
  unfolding cycles load_guard
  run opts file pulls s =
      let (e, s') = be.ensure_base s in
      let started = load_guard opts file fresh in
      elim e [ some why ↦ (some why, (fresh, s')) | none ↦ (none, cycles opts pulls (started, s')) ]
