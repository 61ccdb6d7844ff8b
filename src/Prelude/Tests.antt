-- ===== src/Prelude/Tests.antt =====
-- Boolean tests on numbers and on values of types with decidable equality, and the conditional.
use Prim.Native.Nat.{ℕ, compare, Ordering}
use mathlib.Core.Path.{◌≡◌, refl}
use mathlib.Core.Logic.{◌⊎◌, inl, inr}
use mathlib.Core.Bool.{Bool, true, false}
use mathlib.Core.Option.{Option, none, some}
use native.Mathlib.Omega.{arith}
use native.Mathlib.Decide.{ℕ_discrete}

abbrev pub ltb : ℕ → ℕ → Bool
ltb a b = elim (compare a b) [ Ordering.lt ↦ true | _ ↦ false ]

abbrev pub leb : ℕ → ℕ → Bool
leb a b = elim (compare a b) [ Ordering.gt ↦ false | _ ↦ true ]

infix 1 if◌then◌else◌
abbrev pub if◌then◌else◌ {ℓ} : {A : Type ℓ} → Bool → A → A → A
if true then x else y = x
if false then x else y = y

-- Go's `==`, on any type with decidable equality. `ground` reads such a test with no lemma listed.
infix 50 ◌==◌
abbrev pub ◌==◌ {ℓ} : {A : Type ℓ} ⦃d : Discrete A⦄ → A → A → Bool
◌==◌ ⦃d⦄ a b = elim (d a b) [ yes _ ↦ true | no _ ↦ false ]

instance unfoldable pub nat_discrete : Discrete ℕ
unfolding ℕ_discrete
nat_discrete = ℕ_discrete

instance unfoldable pub Bool-discrete : Discrete Bool
Bool-discrete = hlevel

pub ==_refl {ℓ} : {A : Type ℓ} ⦃d : Discrete A⦄ (a : A) → (a == a) ≡ true
==_refl a = ground arith

pub ==_eq {ℓ} : {A : Type ℓ} ⦃d : Discrete A⦄ (a b : A) → (a == b) ≡ true → a ≡ b
==_eq ⦃d⦄ a b h = elim (d a b) [ yes e ↦ e | no n ↦ absurd (ground (arith, n, h)) ]

pub Bool-cases : (b : Bool) → (b ≡ true) ⊎ (b ≡ false)
Bool-cases true = inl refl
Bool-cases false = inr refl

pub Option-cases {ℓ} : {A : Type ℓ} (o : Option A) → (o ≡ none) ⊎ ((a : A) × (o ≡ some a))
Option-cases none = inl refl
Option-cases (some a) = inr (a, refl)

-- Go's `for … { if test { return true } }` on an optional value: `nil` is false.
abbrev pub is_some {ℓ} : {A : Type ℓ} → Option A → Bool
is_some none = false
is_some (some a) = true
