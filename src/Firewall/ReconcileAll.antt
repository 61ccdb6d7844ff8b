-- ===== src/Firewall/ReconcileAll.antt =====
-- ReconcileAll (internal/firewall/reconcile.go). A Go map used as a set is the list of its keys.
pub mod Scan
pub mod Passes
pub mod Exact
pub mod Succeeds
use nft_okboy_fleet.Prelude.{
  ℕ, ℤ, ℤ-discrete, Text, Text-discrete, Bool, true, false, Option, none, some, List, [], ◌∷◌, map,
  ◌+◌, ◌&&◌, ◌||◌, not, if◌then◌else◌, has,
}
use nft_okboy_fleet.Firewall.{
  Rule, FirewallBackend, FwError, Listing, listed, unlisted, is_host_rule,
}
use nft_okboy_fleet.Firewall.Lawful.{Key, Key-discrete, key_of}

-- The match of a rule, by which ufw merges rules.
pub record Match : Type 0 where
  pub ip : Text
  pub proto : Text
  pub port : ℤ

instance unfoldable pub Match-discrete : Discrete Match
unfolding Text-discrete ℤ-discrete
Match-discrete = hlevel (Text-discrete, ℤ-discrete)

abbrev pub match_of : Rule → Match
match_of r = record { ip = r.ip; proto = r.proto; port = r.port }

-- What the scan of the managed rules finds: the keys that stay, their matches, the handles to
-- delete.
pub record Plan : Type 0 where
  pub have : List Key
  pub covered : List Match
  pub extra : List ℤ

-- The loop over the managed rules.
unfoldable pub scan : List Key → List Rule → List Key → List Match → Plan
scan want [] have covered = record { have = have; covered = covered; extra = [] }
scan want (m ∷ managed) have covered = elim (has (key_of m) want && not (has (key_of m) have)) [
  | true ↦ scan want managed (key_of m ∷ have) (match_of m ∷ covered)
  | false ↦
      let rest = scan want managed have covered in record rest { extra = m.handle ∷ rest.extra }
]

module _ (be : FirewallBackend) where
  -- The variables of the loop that adds, and the backend's state.
  pub record AddPass : Type 0 where
    pub have : List Key
    pub covered : List Match
    pub added : ℕ
    pub err : Option FwError
    pub state : be.State

  -- The rest of the round once AddRule has answered.
  unfoldable pub after_add : Match → AddPass → Option FwError → AddPass
  after_add mk p none = record p { covered = mk ∷ p.covered; added = p.added + 1 }
  after_add mk p (some e) =
      if is_host_rule e then record p { covered = mk ∷ p.covered } else record p { err = some e }

  -- One round of the loop over the desired rules.
  unfoldable pub add_step : Rule → AddPass → AddPass
  unfolding after_add
  add_step d p =
      if has (key_of d) p.have || (be.merges_same_match && has (match_of d) p.covered)
      then p
      else (let (e, s) = be.add_rule d.ip d.port d.user d.proto d.group p.state in
          after_add (match_of d) (record p { have = key_of d ∷ p.have; state = s }) e)

  unfoldable pub add_all : List Rule → AddPass → AddPass
  add_all [] p = p
  add_all (d ∷ desired) p = add_all desired (add_step d p)

  -- The variables of the loop that deletes.
  pub record DeletePass : Type 0 where
    pub removed : ℕ
    pub err : Option FwError
    pub state : be.State

  unfoldable pub delete_step : ℤ → DeletePass → DeletePass
  delete_step h p =
      let (e, s) = be.delete_by_handle h p.state in
      elim e [
        | none ↦ record { removed = p.removed + 1; err = p.err; state = s }
        | some e ↦ record { removed = p.removed; err = some e; state = s }
      ]

  unfoldable pub delete_all : List ℤ → DeletePass → DeletePass
  delete_all [] p = p
  delete_all (h ∷ extra) p = delete_all extra (delete_step h p)

  -- (added, removed, err) and the backend's state.
  pub record Outcome : Type 0 where
    pub added : ℕ
    pub removed : ℕ
    pub err : Option FwError
    pub state : be.State

  abbrev pub start_adding : Plan → be.State → AddPass
  start_adding plan s = record {
    have = plan.have;
    covered = plan.covered;
    added = 0;
    err = none;
    state = s;
  }

  abbrev pub start_deleting : AddPass → DeletePass
  start_deleting p = record { removed = 0; err = p.err; state = p.state }

  abbrev pub finish : AddPass → DeletePass → Outcome
  finish a d = record { added = a.added; removed = d.removed; err = d.err; state = d.state }

  -- The two loops after the scan.
  unfoldable pub apply_plan : List Rule → Plan → be.State → Outcome
  apply_plan desired plan s =
      let a = add_all desired (start_adding plan s) in
      finish a (delete_all plan.extra (start_deleting a))

  unfoldable pub reconcile_all : List Rule → be.State → Outcome
  unfolding apply_plan
  reconcile_all desired s =
      let (managed, s') = be.list_managed s in
      elim managed [
        | unlisted e ↦ record { added = 0; removed = 0; err = some e; state = s' }
        | listed rules ↦ apply_plan desired (scan (map key_of desired) rules [] []) s'
      ]
