-- ===== src/Firewall/ReconcileAll/Scan.antt =====
-- The scan of the managed rules: of each desired key it keeps one rule, and it lists the handles of
-- all others.
use nft_okboy_fleet.Firewall.Lawful.Deletes.{listed_in}
use nft_okboy_fleet.Prelude.{
  ℤ, ℤ-discrete, Bool, false, List, [], ◌∷◌, ◌≡◌, ◌≤◌, refl, arith, ◌&&◌, ◌||◌, not, if◌then◌else◌,
  has, count, ltb,
}
use nft_okboy_fleet.Firewall.{Rule}
use nft_okboy_fleet.Firewall.Lawful.{Key, Key-discrete, key_of, by_key, by_handle}
use nft_okboy_fleet.Firewall.ReconcileAll.{Match, match_of, scan}

-- No two rules share a handle.
abbrev pub IsDistinct : List Rule → Type 0
IsDistinct rs = (h : ℤ) → count (by_handle h) rs ≤ 1

IsDistinct-tail : (m : Rule) (rs : List Rule) → IsDistinct (m ∷ rs) → IsDistinct rs
IsDistinct-tail m rs d h = ground (arith, d h)

head_fresh : (m : Rule) (rs : List Rule) → IsDistinct (m ∷ rs) → count (by_handle m.handle) rs ≡ 0
head_fresh m rs d = ground (arith, d m.handle)

-- A handle that no rule has may be listed or not.
pub count_unlisted :
    (p : Rule → Bool) (h : ℤ) (hs : List ℤ) (rs : List Rule)
    → count (by_handle h) rs ≡ 0
    → count (λ r. p r && not (listed_in (h ∷ hs) r)) rs
      ≡ count (λ r. p r && not (listed_in hs r)) rs
count_unlisted p h hs [] e = refl
count_unlisted p h hs (r ∷ rs) e = ground (arith, count_unlisted p h hs rs)

module _ (want : List Key) where
  -- The scan lists no handle that no managed rule has.
  pub extra-managed :
      (h : ℤ) (rs : List Rule) (have : List Key) (covered : List Match)
      → count (by_handle h) rs ≡ 0
      → has h (scan want rs have covered).extra ≡ false
  unfolding scan
  extra-managed h [] have covered e = refl
  extra-managed h (m ∷ rs) have covered e = ground (
    arith,
    extra-managed h rs (key_of m ∷ have) (match_of m ∷ covered),
    extra-managed h rs have covered,
  )

  -- The scan remembers the keys that it knew and each desired key that it met.
  pub have-scan :
      (k : Key) (rs : List Rule) (have : List Key) (covered : List Match)
      → has k (scan want rs have covered).have
        ≡ (has k have || (has k want && ltb 0 (count (by_key k) rs)))
  unfolding scan
  have-scan k [] have covered = ground arith
  have-scan k (m ∷ rs) have covered =
      ground (
        arith,
        have-scan k rs (key_of m ∷ have) (match_of m ∷ covered),
        have-scan k rs have covered,
      )

  -- Of each desired key that is there one rule stays, and of every other key none.
  pub stays-scan :
      (k : Key) (rs : List Rule) (have : List Key) (covered : List Match)
      → IsDistinct rs
      → count (λ r. by_key k r && not (listed_in (scan want rs have covered).extra r)) rs
        ≡ (if has k want && not (has k have) && ltb 0 (count (by_key k) rs) then 1 else 0)
  unfolding scan
  stays-scan k [] have covered d = ground arith
  stays-scan k (m ∷ rs) have covered d = ground (
    arith,
    extra-managed m.handle rs (key_of m ∷ have) (match_of m ∷ covered) (head_fresh m rs d),
    stays-scan k rs (key_of m ∷ have) (match_of m ∷ covered) (IsDistinct-tail m rs d),
    stays-scan k rs have covered (IsDistinct-tail m rs d),
    count_unlisted (by_key k) m.handle (scan want rs have covered).extra rs (head_fresh m rs d),
  )
