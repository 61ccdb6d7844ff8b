-- ===== src/Server/Handler/Frame.antt =====
-- Steps that leave a part of the state as it is, and what passing them says.
use nft_okboy_fleet.Prelude.{
  ◌≡◌, refl, sym, ap, ◌∙◌, ◌≢◌, ◌⊎◌, inl, inr, Bool, true, false, Option, none, some, List, [], ◌∷◌,
  arith, nat_discrete, Bool-discrete, ℤ-discrete, Text-discrete,
}
use nft_okboy_fleet.Db.{User, Membership, Db, storage, Result, ok, err, query, read}
use nft_okboy_fleet.Firewall.{FirewallBackend}
use nft_okboy_fleet.Server.{World, Message}
use nft_okboy_fleet.Server.Handler.{
  Response, Handler, answered, next, continue, ◌>>=◌, ok_or_500, internal, require, found, judged,
  settle, Verdict, refused, granted,
}
use nft_okboy_fleet.Server.Handler.Steps.{Step-cases}

-- The tables of who exists and who belongs to what.
abbrev pub roster : Db → List User × List Membership
roster d = (d.users, d.memberships)

-- A reading fails or answers from the tables, and keeps them.
pub read_cases {ℓ} :
    {A : Type ℓ} (f : Db → A) (d : Db)
    → ((fs : List Bool) → f (record d { faults = fs }) ≡ f d)
    → (((read f d).0 ≡ err storage) ⊎ ((read f d).0 ≡ ok (f d))) × (roster (read f d).1 ≡ roster d)
unfolding query
read_cases f d blind = by_faults d.faults
  where
    by_faults :
        (fs : List Bool)
        → let start = record d { faults = fs } in
          (((read f start).0 ≡ err storage) ⊎ ((read f start).0 ≡ ok (f d)))
          × (roster (read f start).1 ≡ roster d)
    by_faults [] = (inr (ap ok (blind [])), refl)
    by_faults (true ∷ fs) = (inl refl, refl)
    by_faults (false ∷ fs) = (inr (ap ok (blind fs)), refl)

failed_ok {ℓ} : {A : Type ℓ} (x : Result A) (a : A) → x ≡ err storage → x ≢ ok a
failed_ok x a failed e = ground (arith, failed, e)

-- The value of a result that is no error.
abbrev value {ℓ} : {A : Type ℓ} → A → Result A → A
value a (ok b) = b
value a (err e) = a

module _ {ℓ} {be : FirewallBackend} {X : Type ℓ} (view : World be → X) where
  abbrev pub Keeps {κ} : {A : Type κ} → Handler be A → Type ℓ
  Keeps m = (w : World be) → view (m w).1 ≡ view w

  -- A change behind a step that makes none is made by what follows, once the step is passed.
  pub bind_changed {κ μ} :
      {A : Type κ} {B : Type μ} (m : Handler be A) (k : A → Handler be B) (w : World be)
      → view (m w).1 ≡ view w
      → view ((m >>= k) w).1 ≢ view w
      → (a : A) × ((m w).0 ≡ next a) × (view (k a (m w).1).1 ≢ view (m w).1)
  unfolding ◌>>=◌ continue
  bind_changed m k w same changed = elim (Step-cases (m w).0) [
    | inl (r, h) ↦ absurd (changed (ap (λ s. view (continue k (s, (m w).1)).1) h ∙ same))
    | inr (a, h) ↦ (a, h, λ e. changed (ap (λ s. view (continue k (s, (m w).1)).1) h ∙ e ∙ same))
  ]

  pub bind-Keeps {κ μ} :
      {A : Type κ} {B : Type μ} (m : Handler be A) (k : A → Handler be B) (w : World be)
      → view (m w).1 ≡ view w
      → ((a : A) → view (k a (m w).1).1 ≡ view (m w).1)
      → view ((m >>= k) w).1 ≡ view w
  unfolding ◌>>=◌ continue
  bind-Keeps m k w same keeps = elim (Step-cases (m w).0) [
    | inl (r, h) ↦ ap (λ s. view (continue k (s, (m w).1)).1) h ∙ same
    | inr (a, h) ↦ ap (λ s. view (continue k (s, (m w).1)).1) h ∙ keeps a ∙ same
  ]

module _ {be : FirewallBackend} where
  pub found_next {ℓ} :
      {A : Type ℓ} (r : Response) (o : Option A) (w : World be) (a : A)
      → (found r o w).0 ≡ next a
      → o ≡ some a
  unfolding found
  found_next r none w a h = ground (arith, h)
  found_next r (some b) w a h = ap (λ s. elim s [ answered r ↦ some b | next x ↦ some x ]) h

  pub found-same {ℓ} :
      {A : Type ℓ} (r : Response) (o : Option A) (w : World be) → (found r o w).1 ≡ w
  unfolding found
  found-same r none w = refl
  found-same r (some a) w = refl

  ok_next {ℓ} :
      {A : Type ℓ} (x : Result A) (w : World be) (a : A) → (ok_or_500 x w).0 ≡ next a → x ≡ ok a
  unfolding ok_or_500
  ok_next (ok b) w a h = ap (λ s. elim s [ answered r ↦ ok b | next x ↦ ok x ]) h
  ok_next (err e) w a h = ground (arith, h)

  pub require-same : (test : Bool) (r : Response) (w : World be) → (require test r w).1 ≡ w
  unfolding require
  require-same true r w = refl
  require-same false r w = refl

  pub internal_next {ℓ} :
      {A : Type ℓ} (f : Db → A) (w : World be) (a : A)
      → ((fs : List Bool) → f (record w.db { faults = fs }) ≡ f w.db)
      → (internal (read f) w).0 ≡ next a
      → a ≡ f w.db
  unfolding internal ok_or_500
  internal_next f w a blind h =
      let given = ok_next (read f w.db).0 _ a h in
      elim (read_cases f w.db blind).0 [
        | inl e ↦ absurd (failed_ok (read f w.db).0 a e given)
        | inr e ↦ ap (value a) (sym given ∙ e)
      ]

  pub internal-roster {ℓ} :
      {A : Type ℓ} (f : Db → A) (w : World be)
      → ((fs : List Bool) → f (record w.db { faults = fs }) ≡ f w.db)
      → roster (internal (read f) w).1.db ≡ roster w.db
  unfolding internal ok_or_500
  internal-roster f w blind = elim (read_cases f w.db blind).0 [
    | inl e ↦ rw e (read_cases f w.db blind).1
    | inr e ↦ rw e (read_cases f w.db blind).1
  ]

  settle_next {ℓ} :
      {A : Type ℓ} (r : Message → Response) (v : Verdict A) (w : World be) (a : A)
      → (settle r v w).0 ≡ next a
      → v ≡ granted a
  unfolding settle
  settle_next r (refused m) w a h = ground (arith, h)
  settle_next r (granted b) w a h =
      ap (λ s. elim s [ answered r ↦ granted b | next x ↦ granted x ]) h

  settle-same {ℓ} :
      {A : Type ℓ} (r : Message → Response) (v : Verdict A) (w : World be) → (settle r v w).1 ≡ w
  unfolding settle
  settle-same r (refused m) w = refl
  settle-same r (granted a) w = refl

  pub judged_next {ℓ} :
      {A : Type ℓ} (r : Message → Response) (f : Db → Verdict A × Db) (w : World be) (a : A)
      → (judged r f w).0 ≡ next a
      → (f w.db).0 ≡ granted a
  unfolding judged
  judged_next r f w a h = settle_next r (f w.db).0 (record w { db = (f w.db).1 }) a h

  pub judged-db {ℓ} :
      {A : Type ℓ} (r : Message → Response) (f : Db → Verdict A × Db) (w : World be)
      → (judged r f w).1.db ≡ (f w.db).1
  unfolding judged
  judged-db r f w = ap (λ x. x.db) (settle-same r (f w.db).0 (record w { db = (f w.db).1 }))
