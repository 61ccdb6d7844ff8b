-- ===== src/Firewall/Nft/Parse.antt =====
-- What parseExpr reads back of the rules that the backend writes.
use nft_okboy_fleet.Prelude.{
  Bool-cases, ◌==◌, ==_refl, ◌≡◌, refl, ◌∙◌, inl, inr, Bool, true, false, Option, List, [], ◌∷◌,
  arith, ◌==◌, ==_refl, nat_discrete, Bool-discrete, Bool-cases, ℤ, pos, ℤ-discrete, Text,
  Text-discrete,
}
use nft_okboy_fleet.Firewall.{Rule, PortProto, tcp, known_proto}
use nft_okboy_fleet.Firewall.Guard.{loopback}
use nft_okboy_fleet.Firewall.Nft.Kernel.{stored}
use nft_okboy_fleet.Firewall.Nft.{
  guard_rule, Expr, matches, payload, iif, syn_flags, other_left, str, num, other_value, accept,
  drop, other_expr, Nft, NftRule, parse_one, parse_expr, rule_of, saddr, dport, match_expr,
  allow_rule, guard_expr,
}

parse_one_keeps :
    (e : Expr) (r : Rule)
    → ((parse_one e r).handle ≡ r.handle) × ((parse_one e r).comment ≡ r.comment)
unfolding parse_one
parse_one_keeps (matches (payload protocol field) (str s)) r = (ground (arith), ground (arith))
parse_one_keeps (matches (payload protocol field) (num s)) r = (ground (arith), ground (arith))
parse_one_keeps (matches (payload protocol field) other_value) r = (ground (arith), ground (arith))
parse_one_keeps (matches iif v) r = (refl, refl)
parse_one_keeps (matches syn_flags v) r = (refl, refl)
parse_one_keeps (matches other_left v) r = (refl, refl)
parse_one_keeps accept r = (refl, refl)
parse_one_keeps drop r = (refl, refl)
parse_one_keeps other_expr r = (refl, refl)

pub parse_expr_keeps :
    (es : List Expr) (r : Rule)
    → ((parse_expr es r).handle ≡ r.handle) × ((parse_expr es r).comment ≡ r.comment)
unfolding parse_expr
parse_expr_keeps [] r = (refl, refl)
parse_expr_keeps (e ∷ es) r =
    let rest = parse_expr_keeps es (parse_one e r) in
    let one = parse_one_keeps e r in (rest.0 ∙ one.0, rest.1 ∙ one.1)

pub rule_of_keeps :
    (r : NftRule) → ((rule_of r).handle ≡ r.handle) × ((rule_of r).comment ≡ r.comment)
unfolding rule_of
rule_of_keeps r = parse_expr_keeps r.expr _

saddr_ne_dport : (dport == saddr) ≡ false
unfolding Text-discrete
saddr_ne_dport = refl

parse_saddr :
    (protocol ip : Text) (r : Rule)
    → parse_one (matches (payload protocol saddr) (str ip)) r ≡ record r { ip = ip }
unfolding parse_one
parse_saddr protocol ip r = rw (==_refl saddr) refl

parse_dport :
    (proto : Text) (port : ℤ) (r : Rule)
    → known_proto proto ≡ true
    → parse_one (matches (payload proto dport) (num port)) r
      ≡ record r { port = port; proto = proto }
unfolding parse_one
parse_dport proto port r known = rw (saddr_ne_dport, ==_refl dport, known) refl

module _ (nft : Nft) (parse_ip : Text → Option Text) (is_v4 : Text → Bool) (prefix : Text) where
  -- An allow rule is read back with the address, the port and the protocol it was written for.
  pub rule_of-allow :
      (h : ℤ) (ip : Text) (port : ℤ) (proto user group : Text)
      → known_proto proto ≡ true
      → let r =
          rule_of (stored h (allow_rule nft parse_ip is_v4 prefix ip port user proto group)) in
        (r.ip ≡ ip) × (r.port ≡ port) × (r.proto ≡ proto)
  unfolding rule_of parse_expr match_expr
  rule_of-allow h ip port proto user group known =
      rw (parse_saddr, parse_dport proto port _ known) (unfold parse_one in (refl, refl, refl))

  -- A rule of the guard is read back with the port and the protocol that it closes, the loopback
  -- bypass with the zero PortProto.
  pub rule_of-guard :
      (h : ℤ) (p : PortProto)
      → ((p.port == pos 0) ≡ false) × (known_proto p.proto ≡ true)
      → ((rule_of (stored h (guard_rule nft parse_ip is_v4 prefix p))).port ≡ p.port)
        × ((rule_of (stored h (guard_rule nft parse_ip is_v4 prefix p))).proto ≡ p.proto)
  unfolding rule_of parse_expr guard_expr
  rule_of-guard h p (closed, known) = elim (Bool-cases (p.proto == tcp)) [
    | inl t ↦ rw (closed, t, parse_dport p.proto p.port _ known) (unfold parse_one in (refl, refl))
    | inr t ↦ rw (closed, t, parse_dport p.proto p.port _ known) (unfold parse_one in (refl, refl))
  ]

  pub rule_of-bypass :
      (h : ℤ)
      → ((rule_of (stored h (guard_rule nft parse_ip is_v4 prefix loopback))).port ≡ pos 0)
        × ((rule_of (stored h (guard_rule nft parse_ip is_v4 prefix loopback))).proto ≡ [])
  unfolding rule_of parse_expr guard_expr parse_one ℤ-discrete
  rule_of-bypass h = (refl, refl)
