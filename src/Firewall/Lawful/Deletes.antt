-- ===== src/Firewall/Lawful/Deletes.antt =====
-- A run of deletions by handle, as the policies make them: each one may fail.
use nft_okboy_fleet.Prelude.{
  ℤ, ℤ-discrete, Bool, none, List, [], ◌∷◌, ◌≡◌, ◌≤◌, arith, ◌&&◌, not, has, count, inl, inr,
  Option-cases, count_ext, count-le,
}
use nft_okboy_fleet.Firewall.{Rule, FirewallBackend}
use nft_okboy_fleet.Firewall.Lawful.{by_handle, Laws}

abbrev pub listed_in : List ℤ → Rule → Bool
listed_in hs r = has r.handle hs

module _ (be : FirewallBackend) where
  -- The state after the deletions.
  abbrev pub deletes : List ℤ → be.State → be.State
  deletes [] s = s
  deletes (h ∷ hs) s = deletes hs (be.delete_by_handle h s).1

  -- Each of them returned nil.
  abbrev pub AllDone : List ℤ → be.State → Type 0
  AllDone [] s = Unit
  AllDone (h ∷ hs) s = ((be.delete_by_handle h s).0 ≡ none) × AllDone hs (be.delete_by_handle h s).1

module _ (be : FirewallBackend) (laws : Laws be) where
  open laws use {rules, IsValid}

  module _ (h : ℤ) (s : be.State) (v : IsValid s) (q : Rule → Bool) where
    one_keeps :
        count (λ r. q r && not (by_handle h r)) (rules s)
        ≤ count q (rules (be.delete_by_handle h s).1)
    one_keeps = elim (Option-cases (be.delete_by_handle h s).0) [
      | inl ok ↦ omega (arith, laws.delete_done h s v ok q)
      | inr (e, bad) ↦
          rw (laws.delete_failed h s (ground arith))
            (count-le q (λ r. not (by_handle h r)) (rules s))
    ]

    one_drops : count q (rules (be.delete_by_handle h s).1) ≤ count q (rules s)
    one_drops = elim (Option-cases (be.delete_by_handle h s).0) [
      | inl ok ↦
          omega
            (arith, laws.delete_done h s v ok q, count-le q (λ r. not (by_handle h r)) (rules s))
      | inr (e, bad) ↦ rw (laws.delete_failed h s (ground arith)) (omega arith)
    ]

  deletes-same :
      (q : Rule → Bool) (h : ℤ) (hs : List ℤ) (rs : List Rule)
      → count (λ r. q r && not (listed_in (h ∷ hs) r)) rs
        ≡ count (λ r. (q r && not (listed_in hs r)) && not (by_handle h r)) rs
  deletes-same q h hs rs = count_ext _ _ rs (λ r. ground arith)

  pub deletes-IsValid : (hs : List ℤ) (s : be.State) → IsValid s → IsValid (deletes be hs s)
  deletes-IsValid [] s v = v
  deletes-IsValid (h ∷ hs) s v =
      deletes-IsValid hs (be.delete_by_handle h s).1 (laws.delete_valid h s v)

  -- Whatever fails, a rule whose handle is not listed stays.
  pub deletes_keeps :
      (hs : List ℤ) (s : be.State)
      → IsValid s
      → (q : Rule → Bool)
      → count (λ r. q r && not (listed_in hs r)) (rules s) ≤ count q (rules (deletes be hs s))
  deletes_keeps [] s v q = omega (arith, count-le q (λ r. not (listed_in [] r)) (rules s))
  deletes_keeps (h ∷ hs) s v q = omega (
    arith,
    deletes-same q h hs (rules s),
    one_keeps h s v (λ r. q r && not (listed_in hs r)),
    deletes_keeps hs (be.delete_by_handle h s).1 (laws.delete_valid h s v) q,
  )

  -- No rule appears.
  pub deletes_drops :
      (hs : List ℤ) (s : be.State)
      → IsValid s
      → (q : Rule → Bool) → count q (rules (deletes be hs s)) ≤ count q (rules s)
  deletes_drops [] s v q = omega arith
  deletes_drops (h ∷ hs) s v q = omega (
    arith,
    one_drops h s v q,
    deletes_drops hs (be.delete_by_handle h s).1 (laws.delete_valid h s v) q,
  )

  -- Deletions that all succeed leave exactly the rules whose handles are not listed.
  pub deletes_rules :
      (hs : List ℤ) (s : be.State)
      → IsValid s
      → AllDone be hs s
      → (q : Rule → Bool)
      → count q (rules (deletes be hs s)) ≡ count (λ r. q r && not (listed_in hs r)) (rules s)
  deletes_rules [] s v d q = count_ext _ _ (rules s) (λ r. ground arith)
  deletes_rules (h ∷ hs) s v d q = omega (
    arith,
    deletes-same q h hs (rules s),
    laws.delete_done h s v d.0 (λ r. q r && not (listed_in hs r)),
    deletes_rules hs (be.delete_by_handle h s).1 (laws.delete_valid h s v) d.1 q,
  )
