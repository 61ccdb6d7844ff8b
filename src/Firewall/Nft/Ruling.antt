-- ===== src/Firewall/Nft/Ruling.antt =====
-- What the guard rules of the nftables backend (internal/firewall/nft.go) do with packets.
use nft_okboy_fleet.Prelude.{
  ◌≡◌, refl, sym, ap, ◌∙◌, ◌⊎◌, inl, inr, Bool, true, false, ◌&&◌, ◌||◌, not, Option, none, some,
  List, [], ◌∷◌, ◌++◌, arith, ltb, if◌then◌else◌, ◌==◌, ==_refl, nat_discrete, Bool-discrete,
  Bool-cases, ℤ, ℤ-discrete, count, any, null, All, has, Text, Text-discrete, text, ==_eq,
}
use nft_okboy_fleet.Firewall.{PortProto, PortProto-discrete, tcp}
use nft_okboy_fleet.Firewall.Guard.{guard_layout, guarded, sort, loopback}
use nft_okboy_fleet.Firewall.Guard.Layout.{can_guard, guarded_counts, sort_counts}
use nft_okboy_fleet.Firewall.Nft.{
  Nft, NftRule, Expr, matches, accept, drop, other_expr, Left, payload, iif, syn_flags, Value, str,
  num, dport, guard_expr, sync_guard,
}
use nft_okboy_fleet.Firewall.Nft.Kernel.{Documented}
use nft_okboy_fleet.Firewall.Nft.Program.{outside, Stands}
use nft_okboy_fleet.Firewall.Nft.Apart.{sync_guard-cases, stays}
use nft_okboy_fleet.Firewall.Nft.InPlace.{Closed, guarded-Closed, sort-All, placed}

-- A packet, as far as guard rules look at it; `syn` says that it asks for a TCP connection.
pub record Packet : Type 0 where
  pub on_loopback : Bool
  pub proto : Text
  pub port : ℤ
  pub syn : Bool

-- What nft documents of the matches that guard rules are made of; `holds` says of every packet and
-- match whether it holds.
pub record Matching (holds : Packet → Left → Value → Bool) : Type 0 where
  pub port_match :
      (p : Packet) (proto : Text) (port : ℤ)
      → holds p (payload proto dport) (num port) ≡ ((p.proto == proto) && (p.port == port))
  pub loopback_match : (p : Packet) → holds p iif (str (text "lo")) ≡ p.on_loopback
  pub syn_match : (p : Packet) → holds p syn_flags (str (text "syn")) ≡ p.syn

-- The verdict of a rule, true to accept and false to drop.
abbrev pub verdict : (Packet → Left → Value → Bool) → Packet → List Expr → Option Bool
verdict holds p [] = none
verdict holds p (matches left right ∷ es) = if holds p left right then verdict holds p es else none
verdict holds p (accept ∷ es) = some true
verdict holds p (drop ∷ es) = some false
verdict holds p (other_expr ∷ es) = none

abbrev or_else : Option Bool → Option Bool → Option Bool
or_else (some v) later = some v
or_else none later = later

-- The first verdict of some rules of a chain.
abbrev pub ruling : (Packet → Left → Value → Bool) → Packet → List NftRule → Option Bool
ruling holds p [] = none
ruling holds p (r ∷ rs) = or_else (verdict holds p r.expr) (ruling holds p rs)

abbrev pub aimed : Packet → PortProto
aimed p = record { port = p.port; proto = p.proto }

-- TCP is closed to new connections only, so that open ones live on.
abbrev pub opens : Packet → Bool
opens p = not (p.proto == tcp) || p.syn

-- The guard of a list of ports: none without a port that it can close; else loopback passes, and what
-- opens one of these ports is dropped.
abbrev pub guard_ruling : List PortProto → Packet → Option Bool
guard_ruling ports p =
    if not (any can_guard ports)
    then none
    else if p.on_loopback
    then some true
    else if can_guard (aimed p) && has (aimed p) ports && opens p
    then some false
    else none

abbrev hits : Packet → PortProto → Bool
hits p q = (q == aimed p) && opens p

same_fields :
    (p : Packet) (q : PortProto) → ((p.proto == q.proto) && (p.port == q.port)) ≡ (q == aimed p)
same_fields p q = elim (Bool-cases (q == aimed p)) [
  | inl e ↦ rw (==_eq q (aimed p) e) (ground (arith, ==_refl (aimed p)))
  | inr e ↦ elim (Bool-cases ((p.proto == q.proto) && (p.port == q.port))) [
    | inr f ↦ f ∙ sym e
    | inl f ↦
        let port : q.port ≡ p.port = ground (arith, f) in
        let proto : q.proto ≡ p.proto = ground (arith, f) in
        let same : q ≡ aimed p = rw (port, proto) refl in absurd (ground (arith, e, same))
  ]
]

null_guarded : (ports : List PortProto) → null (guarded [] ports) ≡ not (any can_guard ports)
unfolding guarded
null_guarded [] = refl
null_guarded (p ∷ ports) = ground (arith, null_guarded ports)

any-hits :
    (p : Packet) (ps : List PortProto)
    → any (hits p) ps ≡ (ltb 0 (count (λ q. q == aimed p) ps) && opens p)
any-hits p [] = refl
any-hits p (q ∷ ps) = ground (arith, any-hits p ps)

hits_layout :
    (p : Packet) (ports : List PortProto)
    → any (hits p) (sort (guarded [] ports))
      ≡ (can_guard (aimed p) && has (aimed p) ports && opens p)
hits_layout p ports =
    let counts =
      sort_counts (λ q. q == aimed p) (guarded [] ports) ∙ guarded_counts (aimed p) [] ports in
    ground (arith, any-hits p (sort (guarded [] ports)), counts)

module _ (nft : Nft) (parse_ip : Text → Option Text) (is_v4 : Text → Bool) (prefix : Text)
    (holds : Packet → Left → Value → Bool) (matching : Matching holds) where
  abbrev rules_for : PortProto → List Expr
  rules_for = guard_expr nft parse_ip is_v4 prefix

  verdict_drop :
      (p : Packet) (q : PortProto)
      → Closed q
      → verdict holds p (rules_for q) ≡ (if hits p q then some false else none)
  unfolding guard_expr
  verdict_drop p q (port, known) = elim (Bool-cases (q.proto == tcp)) [
    | inl is_tcp ↦
        rw (port, is_tcp, matching.port_match p q.proto q.port, matching.syn_match p)
          (ground (arith, same_fields p q, is_tcp))
    | inr no_tcp ↦
        rw (port, no_tcp, matching.port_match p q.proto q.port)
          (ground (arith, same_fields p q, no_tcp))
  ]

  verdict-loopback :
      (p : Packet)
      → verdict holds p (rules_for loopback) ≡ (if p.on_loopback then some true else none)
  unfolding guard_expr ℤ-discrete
  verdict-loopback p = rw (matching.loopback_match p) refl

  ruling_drops :
      (p : Packet) (ps : List PortProto) (rs : List NftRule)
      → All Closed ps
      → Stands nft parse_ip is_v4 prefix ps rs
      → ruling holds p rs ≡ (if any (hits p) ps then some false else none)
  ruling_drops p [] [] closed stands = refl
  ruling_drops p [] (r ∷ rs) closed stands = elim stands [ ]
  ruling_drops p (q ∷ ps) [] closed stands = elim stands [ ]
  ruling_drops p (q ∷ ps) (r ∷ rs) closed stands =
      ap (λ x. ruling holds p (x ∷ rs)) stands.0
      ∙ ap (λ v. or_else v (ruling holds p rs)) (verdict_drop p q closed.0)
      ∙ dropped (hits p q) (any (hits p) ps) (ruling holds p rs)
          (ruling_drops p ps rs closed.1 stands.1)
    where
      dropped :
          (hit later : Bool) (rest : Option Bool)
          → rest ≡ (if later then some false else none)
          → or_else (if hit then some false else none) rest
            ≡ (if hit || later then some false else none)
      dropped true later rest h = refl
      dropped false later rest h = h

  ruling_layout :
      (p : Packet) (ports : List PortProto) (rs : List NftRule)
      → Stands nft parse_ip is_v4 prefix (guard_layout ports) rs
      → ruling holds p rs ≡ guard_ruling ports p
  unfolding guard_layout
  ruling_layout p ports rs stands =
      laid (guarded [] ports) (guarded-Closed [] ports) (null_guarded ports) (hits_layout p ports)
        rs stands
    where
      passed :
          (rest : Option Bool)
          → false ≡ not (any can_guard ports)
          → rest
            ≡ (if can_guard (aimed p) && has (aimed p) ports && opens p then some false else none)
          → or_else (if p.on_loopback then some true else none) rest ≡ guard_ruling ports p
      passed rest guards h = elim (Bool-cases p.on_loopback) [
        | inl lo ↦ rw (lo, ← guards) refl
        | inr away ↦ rw (away, ← guards) h
      ]

      laid :
          (ps : List PortProto)
          → All Closed ps
          → null ps ≡ not (any can_guard ports)
          → any (hits p) (sort ps) ≡ (can_guard (aimed p) && has (aimed p) ports && opens p)
          → (rs : List NftRule)
          → Stands nft parse_ip is_v4 prefix
              (elim ps [ [] ↦ [] | q ∷ drops ↦ loopback ∷ sort (q ∷ drops) ])
              rs
          → ruling holds p rs ≡ guard_ruling ports p
      laid [] closed none_there hit [] stands = ground (arith, none_there)
      laid [] closed none_there hit (r ∷ rs) stands = elim stands [ ]
      laid (q ∷ ps) closed some_there hit [] stands = elim stands [ ]
      laid (q ∷ ps) closed some_there hit (r ∷ rs) stands =
          ap (λ x. ruling holds p (x ∷ rs)) stands.0
          ∙ ap (λ v. or_else v (ruling holds p rs)) (verdict-loopback p)
          ∙ passed (ruling holds p rs) some_there (
              ruling_drops p (sort (q ∷ ps)) rs (sort-All Closed (q ∷ ps) closed) stands.1
              ∙ ap (λ b. if b then some false else none) hit)

  module _ (doc : Documented nft) where
    pub sync_guard-blocks :
        (ports : List PortProto) (s : nft.Kernel)
        → (sync_guard nft parse_ip is_v4 prefix ports s).0 ≡ none
        → (((sync_guard nft parse_ip is_v4 prefix ports s).1 ≡ s)
            × (stays nft parse_ip is_v4 prefix doc ports s ≡ true))
          ⊎ ((tail : List NftRule) × (doc.chain (sync_guard nft parse_ip is_v4 prefix ports s).1
                ≡ outside nft parse_ip is_v4 prefix (doc.chain s) ++ tail)
              × ((p : Packet) → ruling holds p tail ≡ guard_ruling ports p)
              × (stays nft parse_ip is_v4 prefix doc ports
                    (sync_guard nft parse_ip is_v4 prefix ports s).1
                  ≡ true))
    sync_guard-blocks ports s ok = elim (sync_guard-cases nft parse_ip is_v4 prefix doc ports s) [
      | inl (bad, _) ↦ absurd (ground (arith, ok, bad))
      | inr (inl (_, same, there)) ↦ inl (same, there)
      | inr (inr (_, (tail, new, stands))) ↦ inr (
        tail,
        new,
        (λ p. ruling_layout p ports tail stands),
        (placed nft parse_ip is_v4 prefix doc ports s _ (tail, new, stands)).0,
      )
    ]
