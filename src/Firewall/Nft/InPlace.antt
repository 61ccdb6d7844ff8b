-- ===== src/Firewall/Nft/InPlace.antt =====
-- The guard that SyncGuard of the nftables backend (internal/firewall/nft.go) leaves in the chain.
use nft_okboy_fleet.Prelude.{
  ◌+◌, ◌-◌, ◌≡◌, refl, sym, ap, ◌⊎◌, inl, inr, Bool, true, false, ◌||◌, not, Option, List, [], ◌∷◌,
  ◌++◌, map, arith, ◌==◌, ==_refl, nat_discrete, Bool-discrete, Bool-cases, ℤ, pos, ℤ-discrete,
  length, keep, All, has, Text, Text-discrete, keep-All, subst,
}
use nft_okboy_fleet.Firewall.{Rule, PortProto, PortProto-discrete, port_in_range, known_proto}
use nft_okboy_fleet.Firewall.Guard.{
  guard_layout, guard_at_tail, guarded, sort, insert, loopback, tail_matches, drop, before,
}
use nft_okboy_fleet.Firewall.Nft.{Nft, NftRule, rule_of, guard_rules, guard_rule}
use nft_okboy_fleet.Firewall.Nft.Kernel.{Documented, stored}
use nft_okboy_fleet.Firewall.Nft.Parse.{rule_of_keeps, rule_of-guard, rule_of-bypass}
use nft_okboy_fleet.Firewall.Nft.Program.{in_guard, outside, Stands}
use nft_okboy_fleet.Firewall.Nft.Apart.{Stands-in_guard, stays, Replaced}

abbrev pub Closed : PortProto → Type 0
Closed p = ((p.port == pos 0) ≡ false) × (known_proto p.proto ≡ true)

-- What the layout holds: the loopback bypass, or a port and a protocol.
abbrev Guardable : PortProto → Type 0
Guardable p = (p ≡ loopback) ⊎ Closed p

Closed-Guardable : (ps : List PortProto) → All Closed ps → All Guardable ps
Closed-Guardable [] h = tt
Closed-Guardable (p ∷ ps) h = (inr h.0, Closed-Guardable ps h.1)

in_range-closed : (port : ℤ) → port_in_range port ≡ true → (port == pos 0) ≡ false
in_range-closed port h = elim (ℤ-discrete port (pos 0)) [
  | yes zero_port ↦ absurd (
      let impossible : port_in_range (pos 0) ≡ true =
        subst (λ p. port_in_range p ≡ true) zero_port h in
      ground (arith, impossible))
  | no n ↦ ground arith
]

pub guarded-Closed : (seen ports : List PortProto) → All Closed (guarded seen ports)
unfolding guarded
guarded-Closed seen [] = tt
guarded-Closed seen (p ∷ ports) =
    let rejected = not (port_in_range p.port) || not (known_proto p.proto) || has p seen in
    elim (Bool-cases rejected) [
      | inl skip ↦
          let same : guarded seen (p ∷ ports) ≡ guarded seen ports = ground (arith, skip) in
          subst (All Closed) (sym same) (guarded-Closed seen ports)
      | inr keeps ↦
          let same : guarded seen (p ∷ ports) ≡ p ∷ guarded (p ∷ seen) ports =
            ground (arith, keeps) in
          subst (All Closed) (sym same) (
            (in_range-closed p.port (ground (arith, keeps)), ground (arith, keeps)),
            guarded-Closed (p ∷ seen) ports,
          )
    ]

insert-All :
    (P : PortProto → Type 0) (p : PortProto) (ps : List PortProto)
    → P p
    → All P ps
    → All P (insert p ps)
unfolding insert
insert-All P p [] h hs = (h, tt)
insert-All P p (q ∷ qs) h hs = elim (Bool-cases (before p q)) [
  | inl e ↦ rw e (h, hs)
  | inr e ↦ rw e (hs.0, insert-All P p qs h hs.1)
]

pub sort-All : (P : PortProto → Type 0) (ps : List PortProto) → All P ps → All P (sort ps)
unfolding sort
sort-All P [] hs = tt
sort-All P (p ∷ ps) hs = insert-All P p (sort ps) hs.0 (sort-All P ps hs.1)

guard_layout-Guardable : (ports : List PortProto) → All Guardable (guard_layout ports)
unfolding guard_layout sort
guard_layout-Guardable ports =
    laid (guarded [] ports) (Closed-Guardable _ (guarded-Closed [] ports))
  where
    laid :
        (ps : List PortProto)
        → All Guardable ps
        → All Guardable (elim ps [ [] ↦ [] | p ∷ drops ↦ loopback ∷ sort (p ∷ drops) ])
    laid [] h = tt
    laid (p ∷ ps) h = (inl refl, sort-All Guardable (p ∷ ps) h)

length_append : (xs ys : List Rule) → length (xs ++ ys) ≡ length xs + length ys
length_append [] ys = omega arith
length_append (x ∷ xs) ys = omega (arith, length_append xs ys)

drop_front : (xs ys : List Rule) → drop (length xs) (xs ++ ys) ≡ ys
drop_front [] ys = refl
drop_front (x ∷ xs) ys = drop_front xs ys

length-map : (rs : List NftRule) → length (map rule_of rs) ≡ length rs
length-map [] = refl
length-map (r ∷ rs) = omega (arith, length-map rs)

map_append : (xs ys : List NftRule) → map rule_of (xs ++ ys) ≡ map rule_of xs ++ map rule_of ys
map_append [] ys = refl
map_append (x ∷ xs) ys = ap (λ rs. rule_of x ∷ rs) (map_append xs ys)

drop-append : (xs ys : List Rule) → drop (length (xs ++ ys) - length ys) (xs ++ ys) ≡ ys
drop-append xs ys =
    let behind : length (xs ++ ys) - length ys ≡ length xs = omega (arith, length_append xs ys) in
    rw behind (drop_front xs ys)

module _ (nft : Nft) (parse_ip : Text → Option Text) (is_v4 : Text → Bool) (prefix : Text) where
  abbrev guards : List Rule → List Rule
  guards = guard_rules nft parse_ip is_v4 prefix

  read_back :
      (h : ℤ) (p : PortProto)
      → Guardable p
      → ((rule_of (stored h (guard_rule nft parse_ip is_v4 prefix p))).port ≡ p.port)
        × ((rule_of (stored h (guard_rule nft parse_ip is_v4 prefix p))).proto ≡ p.proto)
  read_back h p (inl e) = rw e (rule_of-bypass nft parse_ip is_v4 prefix h)
  read_back h p (inr closed) = rule_of-guard nft parse_ip is_v4 prefix h p closed

  matches_tail :
      (want : List PortProto) (tail : List NftRule)
      → All Guardable want
      → Stands nft parse_ip is_v4 prefix want tail
      → (length tail ≡ length want)
        × (tail_matches (map rule_of tail) (map rule_of tail) want ≡ true)
  unfolding tail_matches
  matches_tail [] [] g h = (refl, refl)
  matches_tail [] (r ∷ tail) g h = elim h [ ]
  matches_tail (p ∷ want) [] g h = elim h [ ]
  matches_tail (p ∷ want) (r ∷ tail) (g, gs) (same, hs) =
      let (len, rest) = matches_tail want tail gs hs in
      let (port, proto) = read_back r.handle p g in
      (omega (arith, len), rw (same, port, proto) (ground (arith, rest, ==_refl r.handle)))

  guards_shown :
      (rs : List NftRule)
      → guards (map rule_of rs) ≡ map rule_of (keep (in_guard nft parse_ip is_v4 prefix) rs)
  guards_shown [] = refl
  guards_shown (r ∷ rs) = ground (arith, (rule_of_keeps r).1, guards_shown rs)

  guards_behind :
      (rs tail : List NftRule)
      → All (λ r. in_guard nft parse_ip is_v4 prefix r ≡ true) tail
      → keep (in_guard nft parse_ip is_v4 prefix) (outside nft parse_ip is_v4 prefix rs ++ tail)
        ≡ tail
  guards_behind [] tail h = keep-All _ tail h
  guards_behind (r ∷ rs) tail h = ground (arith, guards_behind rs tail h)

  -- A chain whose last rules are the layout's has the guard at its tail.
  at_tail :
      (ports : List PortProto) (rs tail : List NftRule)
      → Stands nft parse_ip is_v4 prefix (guard_layout ports) tail
      → let chain = map rule_of (outside nft parse_ip is_v4 prefix rs ++ tail) in
        guard_at_tail chain (guards chain) (guard_layout ports) ≡ true
  unfolding guard_at_tail
  at_tail ports rs tail stands =
      let base = outside nft parse_ip is_v4 prefix rs in
      let (len, matched) =
        matches_tail (guard_layout ports) tail (guard_layout-Guardable ports) stands in
      rw
        (
          guards_shown (base ++ tail),
          guards_behind rs tail
              (Stands-in_guard nft parse_ip is_v4 prefix (guard_layout ports) tail stands),
          map_append base tail,
          drop-append (map rule_of base) (map rule_of tail),
          length-map tail,
          len,
          ==_refl (length (guard_layout ports)),
          matched,
        )
        refl

  outside_behind :
      (rs tail : List NftRule)
      → All (λ r. in_guard nft parse_ip is_v4 prefix r ≡ true) tail
      → outside nft parse_ip is_v4 prefix (outside nft parse_ip is_v4 prefix rs ++ tail)
        ≡ outside nft parse_ip is_v4 prefix rs
  outside_behind [] [] h = refl
  outside_behind [] (r ∷ tail) h = ground (arith, h.0, outside_behind [] tail h.1)
  outside_behind (r ∷ rs) tail h = ground (arith, outside_behind rs tail h)

  module _ (doc : Documented nft) where
    pub placed :
        (ports : List PortProto) (s new : nft.Kernel)
        → Replaced nft parse_ip is_v4 prefix doc ports s new
        → (stays nft parse_ip is_v4 prefix doc ports new ≡ true)
          × (outside nft parse_ip is_v4 prefix (doc.chain new)
              ≡ outside nft parse_ip is_v4 prefix (doc.chain s))
    placed ports s new (tail, chain_is, stands) = rw chain_is (
      at_tail ports (doc.chain s) tail stands,
      outside_behind (doc.chain s) tail
          (Stands-in_guard nft parse_ip is_v4 prefix (guard_layout ports) tail stands),
    )
