-- ===== src/Firewall/Manager/User.antt =====
-- What Manager.Reconcile and RemoveUserRules leave behind.
use nft_okboy_fleet.Prelude.{
  ℤ, ℤ-discrete, Text, Text-discrete, Bool, true, false, List, [], ◌∷◌, ◌≡◌, ◌≤◌, ◌<◌, refl, ◌∙◌,
  All, arith, ◌&&◌, not, has, count, ◌==◌, count_ext, ==_refl, count_split, count_mono,
}
use nft_okboy_fleet.Firewall.{Rule, FirewallBackend, Listing, listed, unlisted}
use nft_okboy_fleet.Firewall.Lawful.{by_handle, Laws}
use nft_okboy_fleet.Firewall.Lawful.Deletes.{listed_in, AllDone, deletes_rules}
use nft_okboy_fleet.Firewall.Lawful.Extends.{count_spared}
use nft_okboy_fleet.Firewall.Manager.{remove_user_rules, remove_listed}
use nft_okboy_fleet.Firewall.Manager.Loops.{handles, state-remove_listed, done-remove_listed}

-- A rule that passes the test has one of the handles of the rules that pass it.
pub handles_cover :
    (p : Rule → Bool) (rs : List Rule) → count (λ r. p r && not (listed_in (handles p rs) r)) rs ≡ 0
handles_cover p rs = go rs rs (λ h e. e)
  where
    go :
        (xs ys : List Rule)
        → ((h : ℤ) → has h (handles p xs) ≡ true → has h (handles p ys) ≡ true)
        → count (λ r. p r && not (listed_in (handles p ys) r)) xs ≡ 0
    go [] ys sub = refl
    go (x ∷ xs) ys sub =
        ground (arith, sub x.handle, ==_refl x.handle, go xs ys (λ h e. sub h (ground (arith, e))))

pub handles_there :
    (p : Rule → Bool) (rs : List Rule) (h : ℤ)
    → has h (handles p rs) ≡ true
    → 0 < count (λ r. p r && by_handle h r) rs
handles_there p [] h e = ground arith
handles_there p (r ∷ rs) h e = ground (arith, handles_there p rs h)

-- Where handles are distinct, no rule that fails the test has the handle of one that passes it.
pub handles_spare :
    (p q : Rule → Bool) (hs : List ℤ) (rs : List Rule)
    → ((h : ℤ) → count (by_handle h) rs ≤ 1)
    → ((h : ℤ) → has h hs ≡ true → 0 < count (λ r. p r && by_handle h r) rs)
    → ((r : Rule) → p r ≡ true → q r ≡ false)
    → All (λ h. count (λ r. q r && by_handle h r) rs ≡ 0) hs
handles_spare p q [] rs d there apart = tt
handles_spare p q (h ∷ hs) rs d there apart = (
  omega (
    arith,
    d h,
    there h (ground (arith, ==_refl h)),
    count_split (by_handle h) p rs,
    count_ext (λ r. p r && by_handle h r) (λ r. by_handle h r && p r) rs (λ r. ground arith),
    count_mono (λ r. q r && by_handle h r) (λ r. by_handle h r && not (p r)) rs
        (λ r e. ground (arith, e, apart r)),
  ),
  handles_spare p q hs rs d (λ j e. there j (ground (arith, e))) apart,
)

-- Deleting by the handles of the rules that pass a test deletes exactly these rules.
deleted_exactly :
    (p q : Rule → Bool) (rs : List Rule)
    → ((h : ℤ) → count (by_handle h) rs ≤ 1)
    → count (λ r. q r && not (listed_in (handles p rs) r)) rs ≡ count (λ r. q r && not (p r)) rs
deleted_exactly p q rs d =
    let hs = handles p rs in
    omega (
      arith,
      count_split (λ r. q r && not (listed_in hs r)) p rs,
      count_mono (λ r. (q r && not (listed_in hs r)) && p r) (λ r. p r && not (listed_in hs r)) rs
          (λ r e. ground (arith, e)),
      handles_cover p rs,
      count_spared (λ r. q r && not (p r)) hs rs
          (handles_spare p (λ r. q r && not (p r)) hs rs d (handles_there p rs)
            (λ r e. ground (arith, e))),
      count_ext (λ r. (q r && not (listed_in hs r)) && not (p r))
          (λ r. (q r && not (p r)) && not (listed_in hs r)) rs (λ r. ground arith),
    )

module _ (be : FirewallBackend) (laws : Laws be) where
  open laws use {rules, IsValid}

  -- Over a backend that obeys the laws, from a valid state: a RemoveUserRules without an error
  -- leaves no managed rule of the user, at any address and in any group, and the rules of all
  -- others as they were.
  pub remove_user_rules_lem :
      (user : Text) (s : be.State)
      → IsValid s
      → (remove_user_rules be user s).0 ≡ []
      → (q : Rule → Bool)
      → count q (rules (remove_user_rules be user s).1)
        ≡ count (λ r. q r && not (r.user == user)) (rules s)
  unfolding remove_user_rules
  remove_user_rules_lem user s v e q = go (be.list_managed s).0 refl
    where
      go :
          (l : Listing)
          → (be.list_managed s).0 ≡ l
          → count q (rules (remove_user_rules be user s).1)
            ≡ count (λ r. q r && not (r.user == user)) (rules s)
      go (unlisted err) h = absurd (ground (arith, e, h))
      go (listed rs) h =
          let s' = (be.list_managed s).1 in
          let own = λ (r : Rule). r.user == user in
          let same : remove_user_rules be user s ≡ remove_listed be user rs ([], s') =
            ground (arith, h) in
          let done : AllDone be (handles own rs) s' =
            done-remove_listed be user rs ([], s') (ground (arith, e, same)) in
          let at_end : count q (rules (remove_user_rules be user s).1)
              ≡ count (λ r. q r && not (listed_in (handles own rs) r)) (rules s') =
            rw (same, state-remove_listed be user rs ([], s'))
              (deletes_rules be laws (handles own rs) s' (laws.list_valid s v) done q) in
          at_end
          ∙ rw (laws.list_keeps s, laws.list_all s rs h)
              (deleted_exactly own q (rules s) (laws.unique s v))
