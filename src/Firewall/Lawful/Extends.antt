-- ===== src/Firewall/Lawful/Extends.antt =====
-- A run of additions: the rules that it added, and what holds of each of them.
use nft_okboy_fleet.Prelude.{
  ℤ, ℤ-discrete, Bool, true, false, List, [], ◌∷◌, ◌++◌, ◌≡◌, ◌+◌, refl, arith, ◌&&◌, not, count,
  All, All-append, count-append,
}
use nft_okboy_fleet.Firewall.{Rule}
use nft_okboy_fleet.Firewall.Lawful.{by_handle}
use nft_okboy_fleet.Firewall.Lawful.Deletes.{listed_in}

-- `new` is `old` with rules that have the property, under handles that `old` does not use.
pub record Extends (P : Rule → Type 0) (old new : List Rule) : Type 0 where
  pub news : List Rule
  pub counts : (q : Rule → Bool) → count q new ≡ count q old + count q news
  pub fresh : All (λ r. count (by_handle r.handle) old ≡ 0) news
  pub each : All P news

pub Extends-refl : (P : Rule → Type 0) (rs : List Rule) → Extends P rs rs
Extends-refl P rs = record { news = []; counts = λ q. omega arith; fresh = tt; each = tt }

pub older_fresh :
    (old mid news rs : List Rule)
    → ((q : Rule → Bool) → count q mid ≡ count q old + count q news)
    → All (λ r. count (by_handle r.handle) mid ≡ 0) rs
    → All (λ r. count (by_handle r.handle) old ≡ 0) rs
older_fresh old mid news [] c h = tt
older_fresh old mid news (r ∷ rs) c h =
    (omega (arith, c (by_handle r.handle), h.0), older_fresh old mid news rs c h.1)

pub Extends-trans :
    (P : Rule → Type 0) (x y z : List Rule) → Extends P x y → Extends P y z → Extends P x z
Extends-trans P x y z a b = record {
  news = a.news ++ b.news;
  counts = λ q. omega (arith, a.counts q, b.counts q, count-append q a.news b.news);
  fresh = All-append _ a.news b.news a.fresh (older_fresh x y a.news b.news a.counts b.fresh);
  each = All-append P a.news b.news a.each b.each;
}

-- No rule passes a test that the property excludes.
pub count_none :
    (P : Rule → Type 0) (q : Rule → Bool) (rs : List Rule)
    → ((r : Rule) → P r → q r ≡ false)
    → All P rs
    → count q rs ≡ 0
count_none P q [] h a = refl
count_none P q (r ∷ rs) h a = ground (arith, h r a.0, count_none P q rs h a.1)

spared_tail :
    (q : Rule → Bool) (hs : List ℤ) (r : Rule) (rs : List Rule)
    → All (λ h. count (λ x. q x && by_handle h x) (r ∷ rs) ≡ 0) hs
    → All (λ h. count (λ x. q x && by_handle h x) rs ≡ 0) hs
spared_tail q [] r rs a = tt
spared_tail q (h ∷ hs) r rs a = (omega (arith, a.0), spared_tail q hs r rs a.1)

spared_head :
    (q : Rule → Bool) (hs : List ℤ) (r : Rule) (rs : List Rule)
    → All (λ h. count (λ x. q x && by_handle h x) (r ∷ rs) ≡ 0) hs
    → q r ≡ true
    → listed_in hs r ≡ false
spared_head q [] r rs a e = refl
spared_head q (h ∷ hs) r rs a e = ground (arith, a.0, spared_head q hs r rs a.1 e)

-- Where no rule that passes the test has a listed handle, the list does not matter.
pub count_spared :
    (q : Rule → Bool) (hs : List ℤ) (rs : List Rule)
    → All (λ h. count (λ r. q r && by_handle h r) rs ≡ 0) hs
    → count (λ r. q r && not (listed_in hs r)) rs ≡ count q rs
count_spared q hs [] a = refl
count_spared q hs (r ∷ rs) a =
    ground (arith, spared_head q hs r rs a, count_spared q hs rs (spared_tail q hs r rs a))
