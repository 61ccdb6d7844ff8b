-- ===== src/Server/Handler/Steps.antt =====
-- What the outcome of a sequence of steps says of each step.
use nft_okboy_fleet.Prelude.{
  ◌≡◌, refl, ◌⊎◌, inl, inr, Bool, true, false, arith, nat_discrete, Bool-discrete, ℤ-discrete,
  Text-discrete,
}
use nft_okboy_fleet.Firewall.{FirewallBackend}
use nft_okboy_fleet.Server.{World}
use nft_okboy_fleet.Server.Handler.{
  Response, Step, Handler, answered, next, continue, require, ◌>>=◌,
}

pub Step-cases {ℓ} :
    {A : Type ℓ} (s : Step A) → ((r : Response) × (s ≡ answered r)) ⊎ ((a : A) × (s ≡ next a))
Step-cases (answered r) = inl (r, refl)
Step-cases (next a) = inr (a, refl)

continue_next {ℓ κ} :
    {be : FirewallBackend} {A : Type ℓ} {B : Type κ} (k : A → Handler be B) (s : Step A)
    (w : World be) (b : B)
    → (continue k (s, w)).0 ≡ next b
    → (a : A) × (s ≡ next a) × ((k a w).0 ≡ next b)
unfolding continue
continue_next k (answered r) w b h = ground (arith, h)
continue_next k (next a) w b h = (a, refl, h)

pub bind_next {ℓ κ} :
    {be : FirewallBackend} {A : Type ℓ} {B : Type κ} (m : Handler be A) (k : A → Handler be B)
    (w : World be) (b : B)
    → ((m >>= k) w).0 ≡ next b
    → (a : A) × ((m w).0 ≡ next a) × ((k a (m w).1).0 ≡ next b)
unfolding ◌>>=◌
bind_next m k w b h = continue_next k (m w).0 (m w).1 b h

pub require_next :
    {be : FirewallBackend} (test : Bool) (r : Response) (w : World be)
    → (require test r w).0 ≡ next tt
    → test ≡ true
unfolding require
require_next true r w h = refl
require_next false r w h = ground (arith, h)
