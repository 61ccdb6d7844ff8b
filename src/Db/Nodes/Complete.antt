-- ===== src/Db/Nodes/Complete.antt =====
-- The rules that the rows of a user lead to in the desired state (internal/db/nodes.go).
use nft_okboy_fleet.Prelude.{
  ◌≡◌, refl, ◌≢◌, true, false, ◌&&◌, some, List, [], ◌∷◌, ◌++◌, arith, ◌==◌, nat_discrete,
  Bool-discrete, ℤ-discrete, Text, Text-discrete, subst,
}
use mathlib.Core.List.{Memᴰ}
use nft_okboy_fleet.Db.{User, Group, Membership, Db}
use nft_okboy_fleet.Db.Users.{by_id}
use nft_okboy_fleet.Db.Nodes.{join, local_rules}

Mem-append_left : {B : Type 0} {b : B} (xs ys : List B) → Memᴰ b xs → Memᴰ b (xs ++ ys)
Mem-append_left [] ys m = elim m [ ]
Mem-append_left (x ∷ xs) ys (Memᴰ.head e) = Memᴰ.head e
Mem-append_left (x ∷ xs) ys (Memᴰ.tail m) = Memᴰ.tail (Mem-append_left xs ys m)

Mem-append_right : {B : Type 0} {b : B} (xs ys : List B) → Memᴰ b ys → Memᴰ b (xs ++ ys)
Mem-append_right [] ys m = m
Mem-append_right (x ∷ xs) ys m = Memᴰ.tail (Mem-append_right xs ys m)

Mem-join :
    {A B : Type 0} {b : B} (f : A → List B) (a : A) (xs : List A)
    → Memᴰ a xs
    → Memᴰ b (f a)
    → Memᴰ b (join f xs)
Mem-join {b = b} f a [] t m = elim t [ ]
Mem-join {b = b} f a (x ∷ xs) (Memᴰ.head e) m =
    Mem-append_left (f x) (join f xs) (subst (λ y. Memᴰ b (f y)) e m)
Mem-join {b = b} f a (x ∷ xs) (Memᴰ.tail t) m =
    Mem-append_right (f x) (join f xs) (Mem-join f a xs t m)

-- A user with a recorded address that is not empty and an enabled membership of a group has, in the
-- desired state of the hub's own firewall, the rule for that group at that address.
pub local_rules_complete :
    (d : Db) (g : Group) (m : Membership) (u : User) (ip : Text)
    → Memᴰ g d.groups
    → Memᴰ m d.memberships
    → Memᴰ u d.users
    → m.group_id ≡ g.id
    → m.enabled ≡ true
    → u.id ≡ m.user_id
    → u.current_ip ≡ some ip
    → ip ≢ []
    → Memᴰ
        (record { ip = ip; port = g.port; proto = g.proto; user = u.username; group = g.name })
        (local_rules d)
unfolding local_rules
local_rules_complete d g m u ip in_g in_m in_u same_g on same_u at full =
    let group_on : (m.group_id == g.id) && m.enabled ≡ true = ground (arith, same_g, on) in
    let user_on : by_id m.user_id u ≡ true = ground (arith, same_u) in
    let named : (ip == []) ≡ false = ground (arith, full) in
    Mem-join _ g d.groups in_g (
      Mem-join _ m d.memberships in_m
        (rw group_on (Mem-join _ u d.users in_u (rw user_on (rw at (rw named (Memᴰ.head refl)))))))
