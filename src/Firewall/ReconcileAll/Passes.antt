-- ===== src/Firewall/ReconcileAll/Passes.antt =====
-- The two loops of ReconcileAll over a backend that obeys the laws.
use nft_okboy_fleet.Prelude.{
  ℤ, ℤ-discrete, Bool, true, false, Option, none, some, List, [], ◌∷◌, ◌++◌, map, ◌≡◌, ◌≢◌, ◌≤◌,
  ◌+◌, ◌∙◌, All, All-append, arith, ◌&&◌, ◌||◌, not, if◌then◌else◌, has, count, inl, inr,
  Bool-cases, Option-cases, count-append, ap, refl,
}
use nft_okboy_fleet.Firewall.{Rule, FirewallBackend, FwError, is_host_rule, Text}
use nft_okboy_fleet.Firewall.Lawful.{
  Key, Key-discrete, key_of, by_key, by_handle, Laws, Adds, IsPlainRule,
}
use nft_okboy_fleet.Firewall.ReconcileAll.{
  Match-discrete, match_of, AddPass, add_step, after_add, add_all, DeletePass, delete_step,
  delete_all,
}
use nft_okboy_fleet.Firewall.Lawful.Deletes.{
  listed_in, deletes, AllDone, deletes_rules, deletes_keeps,
}

-- `new` is `old` with the rules `news`, under handles that `old` does not use: of each key at most
-- one, and only of a key that `have'` knows and `have` does not; exactly one where `Clean` holds.
pub record Grows (Clean : Type 0) (old new : List Rule) (have have' : List Key) : Type 0 where
  pub news : List Rule
  pub counts : (q : Rule → Bool) → count q new ≡ count q old + count q news
  pub fresh : All (λ r. count (by_handle r.handle) old ≡ 0) news
  pub at_most :
      (k : Key) → count (by_key k) news ≤ (if has k have' && not (has k have) then 1 else 0)
  pub at_least :
      Clean → (k : Key) → (if has k have' && not (has k have) then 1 else 0) ≤ count (by_key k) news
  pub more : (k : Key) → has k have ≡ true → has k have' ≡ true

Grows-refl : (C : Type 0) (rs : List Rule) (have : List Key) → Grows C rs rs have have
Grows-refl C rs have = record {
  news = [];
  counts = λ q. omega arith;
  fresh = tt;
  at_most = λ k. omega arith;
  at_least = λ c k. ground arith;
  more = λ k h. h;
}

older_fresh :
    (old mid news rs : List Rule)
    → ((q : Rule → Bool) → count q mid ≡ count q old + count q news)
    → All (λ r. count (by_handle r.handle) mid ≡ 0) rs
    → All (λ r. count (by_handle r.handle) old ≡ 0) rs
older_fresh old mid news [] c h = tt
older_fresh old mid news (r ∷ rs) c h =
    (omega (arith, c (by_handle r.handle), h.0), older_fresh old mid news rs c h.1)

Grows-trans :
    (B C : Type 0) (x y z : List Rule) (f g h : List Key)
    → (C → B)
    → Grows B x y f g
    → Grows C y z g h
    → Grows C x z f h
Grows-trans B C x y z f g h c a b = record {
  news = a.news ++ b.news;
  counts = λ q. omega (arith, a.counts q, b.counts q, count-append q a.news b.news);
  fresh = All-append _ a.news b.news a.fresh (older_fresh x y a.news b.news a.counts b.fresh);
  at_most = λ k.
      ground (
        arith,
        a.at_most k,
        b.at_most k,
        count-append (by_key k) a.news b.news,
        a.more k,
        b.more k,
      );
  at_least = λ cl k. ground (
    arith,
    a.at_least (c cl) k,
    b.at_least cl k,
    count-append (by_key k) a.news b.news,
    a.more k,
    b.more k,
  );
  more = λ k e. b.more k (a.more k e);
}

module _ (be : FirewallBackend) (laws : Laws be) where
  open laws use {rules, IsValid}

  -- A pass that ends with no error had none before.
  pub err-delete_all :
      (hs : List ℤ) (p : DeletePass be) → (delete_all be hs p).err ≡ none → p.err ≡ none
  unfolding delete_all delete_step
  err-delete_all [] p e = e
  err-delete_all (h ∷ hs) p e = ground (arith, err-delete_all hs (delete_step be h p))

  delete_step-err :
      (h : ℤ) (p : DeletePass be)
      → (delete_step be h p).err ≡ none
      → (be.delete_by_handle h p.state).0 ≡ none
  unfolding delete_step
  delete_step-err h p e = ground arith

  state-delete_step :
      (h : ℤ) (p : DeletePass be) → (delete_step be h p).state ≡ (be.delete_by_handle h p.state).1
  unfolding delete_step
  state-delete_step h p = ground arith

  state-delete_all :
      (hs : List ℤ) (p : DeletePass be) → (delete_all be hs p).state ≡ deletes be hs p.state
  unfolding delete_all
  state-delete_all [] p = refl
  state-delete_all (h ∷ hs) p =
      state-delete_all hs (delete_step be h p) ∙ ap (deletes be hs) (state-delete_step h p)

  done-delete_all :
      (hs : List ℤ) (p : DeletePass be) → (delete_all be hs p).err ≡ none → AllDone be hs p.state
  unfolding delete_all
  done-delete_all [] p e = tt
  done-delete_all (h ∷ hs) p e =
      let next = delete_step be h p in
      (
        delete_step-err h p (err-delete_all hs next e),
        rw state-delete_step at (done-delete_all hs next e),
      )

  -- Deletions that all succeed leave exactly the rules whose handles are not listed.
  pub delete_all_rules :
      (hs : List ℤ) (p : DeletePass be)
      → IsValid p.state
      → (delete_all be hs p).err ≡ none
      → (q : Rule → Bool)
      → count q (rules (delete_all be hs p).state)
        ≡ count (λ r. q r && not (listed_in hs r)) (rules p.state)
  delete_all_rules hs p v e q =
      rw state-delete_all (deletes_rules be laws hs p.state v (done-delete_all hs p e) q)

  -- Whatever fails, a rule whose handle is not listed stays.
  pub delete_all_keeps :
      (hs : List ℤ) (p : DeletePass be)
      → IsValid p.state
      → (q : Rule → Bool)
      → count (λ r. q r && not (listed_in hs r)) (rules p.state)
        ≤ count q (rules (delete_all be hs p).state)
  delete_all_keeps hs p v q = rw state-delete_all (deletes_keeps be laws hs p.state v q)

  -- The host answers no addition by a rule of its own.
  abbrev pub NoHostRule : Type 0
  NoHostRule =
      (k : Key) (s : be.State) (e : FwError)
      → (be.add_rule k.ip k.port k.user k.proto k.group s).0 ≡ some e
      → is_host_rule e ≡ false

  err-add_all : (ds : List Rule) (p : AddPass be) → (add_all be ds p).err ≡ none → p.err ≡ none
  unfolding add_all add_step after_add
  err-add_all [] p e = e
  err-add_all (d ∷ ds) p e = ground (arith, err-add_all ds (add_step be d p))

  abbrev pub IsClean : AddPass be → Type 0
  IsClean p = NoHostRule × (p.err ≡ none)

  module _ (d : Rule) (p : AddPass be) where
    abbrev answer : Option FwError × be.State
    answer = be.add_rule d.ip d.port d.user d.proto d.group p.state

    abbrev skips : Bool
    skips = has (key_of d) p.have || (be.merges_same_match && has (match_of d) p.covered)

    add_step-skips : skips ≡ true → add_step be d p ≡ p
    unfolding add_step
    add_step-skips h = rw h

    have-add_step : skips ≡ false → (add_step be d p).have ≡ key_of d ∷ p.have
    unfolding add_step after_add
    have-add_step h = rw h (ground arith)

    state-add_step : skips ≡ false → (add_step be d p).state ≡ answer.1
    unfolding add_step after_add
    state-add_step h = rw h (ground arith)

    err-add_step :
        skips ≡ false
        → (e : FwError) → answer.0 ≡ some e
        → is_host_rule e ≡ false
        → (add_step be d p).err ≢ none
    unfolding add_step after_add
    err-add_step h e a n = rw h (ground arith)

    fresh_key : skips ≡ false → has (key_of d) p.have ≡ false
    fresh_key h = ground arith

  module _ (C : Type 0) (k : Key) (old new : List Rule) (have : List Key)
      (fresh : has k have ≡ false) where
    Grows-one : {prefix : Text} → Adds prefix k old new → Grows C old new have (k ∷ have)
    Grows-one a = record {
      news = a.rule ∷ [];
      counts = λ q. omega (arith, a.counts q);
      fresh = (a.fresh, tt);
      at_most = λ j. ground (arith, a.key, fresh);
      at_least = λ c j. ground (arith, a.key, fresh);
      more = λ j h. ground arith;
    }

    Grows-failed : new ≡ old → (C → ⊥) → Grows C old new have (k ∷ have)
    Grows-failed e n = record {
      news = [];
      counts = λ q. rw e (omega arith);
      fresh = tt;
      at_most = λ j. omega arith;
      at_least = λ c j. absurd (n c);
      more = λ j h. ground arith;
    }

  add_step-Grows :
      (d : Rule) (p : AddPass be)
      → IsPlainRule d
      → IsValid p.state
      → Grows
          (IsClean (add_step be d p))
          (rules p.state)
          (rules (add_step be d p).state)
          p.have
          (add_step be d p).have
  unfolding key_of
  add_step-Grows d p plain v = elim (Bool-cases (skips d p)) [
    | inl h ↦ rw (add_step-skips d p h) (Grows-refl _ (rules p.state) p.have)
    | inr h ↦
        rw (have-add_step d p h, state-add_step d p h)
          (elim (Option-cases (answer d p).0) [
            | inl ok ↦
                Grows-one _ (key_of d) _ _ p.have (fresh_key d p h)
                  (laws.add_done (key_of d) p.state plain v ok)
            | inr (e, bad) ↦
                Grows-failed _ (key_of d) _ _ p.have (fresh_key d p h)
                  (laws.add_failed (key_of d) p.state (ground arith))
                  (λ c. err-add_step d p h e bad (c.0 (key_of d) p.state e bad) c.1)
          ])
  ]

  add_step-IsValid : (d : Rule) (p : AddPass be) → IsValid p.state → IsValid (add_step be d p).state
  unfolding key_of
  add_step-IsValid d p v = elim (Bool-cases (skips d p)) [
    | inl h ↦ rw (add_step-skips d p h) v
    | inr h ↦ rw (state-add_step d p h) (laws.add_valid (key_of d) p.state v)
  ]

  pub add_all-IsValid :
      (ds : List Rule) (p : AddPass be) → IsValid p.state → IsValid (add_all be ds p).state
  unfolding add_all
  add_all-IsValid [] p v = v
  add_all-IsValid (d ∷ ds) p v = add_all-IsValid ds (add_step be d p) (add_step-IsValid d p v)

  -- The loop that adds only adds: at most one rule of each key that it comes to know, and one of
  -- each where no addition fails.
  pub add_all-Grows :
      (ds : List Rule) (p : AddPass be)
      → All IsPlainRule ds
      → IsValid p.state
      → Grows
          (IsClean (add_all be ds p))
          (rules p.state)
          (rules (add_all be ds p).state)
          p.have
          (add_all be ds p).have
  unfolding add_all
  add_all-Grows [] p plain v = Grows-refl _ (rules p.state) p.have
  add_all-Grows (d ∷ ds) p plain v =
      let next = add_step be d p in
      Grows-trans (IsClean next) (IsClean (add_all be ds next)) _ _ _ p.have next.have _
        (λ c. (c.0, err-add_all ds next c.1)) (add_step-Grows d p plain.0 v)
        (add_all-Grows ds next plain.1 (add_step-IsValid d p v))

  -- It comes to know desired keys only, and all of them on a backend that does not merge rules.
  pub have-add_all :
      (k : Key) (ds : List Rule) (p : AddPass be)
      → has k (add_all be ds p).have ≡ true
      → (has k p.have || has k (map key_of ds)) ≡ true
  unfolding add_all
  have-add_all k [] p h = ground arith
  have-add_all k (d ∷ ds) p h =
      ground (arith, have-add_all k ds (add_step be d p), add_step-skips d p, have-add_step d p)

  pub add_all-have :
      (k : Key) (ds : List Rule) (p : AddPass be)
      → be.merges_same_match ≡ false
      → (has k p.have || has k (map key_of ds)) ≡ true
      → has k (add_all be ds p).have ≡ true
  unfolding add_all
  add_all-have k [] p m h = ground arith
  add_all-have k (d ∷ ds) p m h =
      ground (arith, add_all-have k ds (add_step be d p) m, add_step-skips d p, have-add_step d p)
