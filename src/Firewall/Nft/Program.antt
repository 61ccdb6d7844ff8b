-- ===== src/Firewall/Nft/Program.antt =====
-- What the programs of SyncGuard (internal/firewall/nft.go) do to a chain.
use nft_okboy_fleet.Prelude.{
  ◌≤◌, ◌≡◌, refl, sym, ◌∙◌, inl, inr, Bool, true, ◌&&◌, not, Option, List, [], ◌∷◌, ◌++◌, map,
  arith, ltb, ◌==◌, nat_discrete, Bool-discrete, Bool-cases, ℤ, ℤ-discrete, count, keep, any, All,
  Text, Text-discrete, All-each, keep-All, subst, keep_ext, keep-keep, count_split,
}
use mathlib.Core.List.{append-nil, append_assoc}
use nft_okboy_fleet.Firewall.{Rule, PortProto}
use nft_okboy_fleet.Firewall.Nft.{
  Nft, NftRule, Command, append, delete, rule_of, guard_rule, guard_comment, guard_rules,
  guard_program,
}
use nft_okboy_fleet.Firewall.Nft.Kernel.{Applies, at_handle, stored}
use nft_okboy_fleet.Firewall.Nft.Parse.{rule_of_keeps}

-- The chain without the rules of a list, by their handles.
abbrev without : List Rule → List NftRule → List NftRule
without [] rs = rs
without (g ∷ gs) rs = without gs (keep (λ r. not (at_handle g.handle r)) rs)

abbrev has_handle : List Rule → NftRule → Bool
has_handle gs r = any (λ g. at_handle g.handle r) gs

Applies-deletes :
    (gs : List Rule) (cs : List Command) (old new : List NftRule)
    → Applies (map (λ g. delete g.handle) gs ++ cs) old new
    → Applies cs (without gs old) new
Applies-deletes [] cs old new h = h
Applies-deletes (g ∷ gs) cs old new h =
    Applies-deletes gs cs (keep (λ r. not (at_handle g.handle r)) old) new h

without-keep :
    (gs : List Rule) (rs : List NftRule) → without gs rs ≡ keep (λ r. not (has_handle gs r)) rs
without-keep [] rs = sym (keep-All (λ r. true) rs (All-each _ rs (λ r m. refl)))
without-keep (g ∷ gs) rs =
    without-keep gs (keep (λ r. not (at_handle g.handle r)) rs)
    ∙ keep-keep (λ r. not (has_handle gs r)) (λ r. not (at_handle g.handle r)) rs
    ∙ keep_ext _ _ rs (All-each _ rs (λ r m. ground arith))

module _ (nft : Nft) (parse_ip : Text → Option Text) (is_v4 : Text → Bool) (prefix : Text) where
  abbrev guard : Text
  guard = guard_comment nft parse_ip is_v4 prefix

  abbrev pub in_guard : NftRule → Bool
  in_guard r = r.comment == guard

  abbrev pub outside : List NftRule → List NftRule
  outside rs = keep (λ r. not (in_guard r)) rs

  -- The rules of a guard as they are stored, in order.
  abbrev pub Stands : List PortProto → List NftRule → Type 0
  Stands [] [] = Unit
  Stands [] (r ∷ rs) = ⊥
  Stands (p ∷ ps) [] = ⊥
  Stands (p ∷ ps) (r ∷ rs) =
      (r ≡ stored r.handle (guard_rule nft parse_ip is_v4 prefix p)) × Stands ps rs

  Applies-appends :
      (ps : List PortProto) (old new : List NftRule)
      → Applies (map (λ p. append (guard_rule nft parse_ip is_v4 prefix p)) ps) old new
      → (tail : List NftRule) × (new ≡ old ++ tail) × Stands ps tail
  Applies-appends [] old new h = ([], (h ∙ sym (append-nil old)), tt)
  Applies-appends (p ∷ ps) old new (handle, fresh, h) =
      let r = stored handle (guard_rule nft parse_ip is_v4 prefix p) in
      let (tail, new_is, stands) = Applies-appends ps (old ++ r ∷ []) new h in
      (r ∷ tail, new_is ∙ append_assoc old (r ∷ []) tail, (refl, stands))

  guards_handle :
      (h : ℤ) (rs : List NftRule)
      → any (λ g. h == g.handle) (guard_rules nft parse_ip is_v4 prefix (map rule_of rs))
        ≡ ltb 0 (count (λ r. at_handle h r && in_guard r) rs)
  guards_handle h [] = refl
  guards_handle h (r ∷ rs) =
      ground (arith, (rule_of_keeps r).0, (rule_of_keeps r).1, guards_handle h rs)

  -- A rule of a chain with distinct handles is in the guard exactly when its handle is listed.
  has_handle-in_guard :
      (rs : List NftRule)
      → ((h : ℤ) → count (at_handle h) rs ≤ 1)
      → All
          (λ r.
            not (has_handle (guard_rules nft parse_ip is_v4 prefix (map rule_of rs)) r)
            ≡ not (in_guard r))
          rs
  has_handle-in_guard rs distinct = All-each _ rs (λ r m. elim (Bool-cases (in_guard r)) [
    | inl e ↦ ground (
      arith,
      e,
      guards_handle r.handle rs,
      m (λ x. at_handle r.handle x && in_guard x) (ground (arith, e)),
    )
    | inr e ↦ ground (
      arith,
      e,
      guards_handle r.handle rs,
      count_split (at_handle r.handle) in_guard rs,
      distinct r.handle,
      m (λ x. at_handle r.handle x && not (in_guard x)) (ground (arith, e)),
    )
  ])

  pub without_guard :
      (rs : List NftRule)
      → ((h : ℤ) → count (at_handle h) rs ≤ 1)
      → without (guard_rules nft parse_ip is_v4 prefix (map rule_of rs)) rs ≡ outside rs
  without_guard rs distinct =
      without-keep (guard_rules nft parse_ip is_v4 prefix (map rule_of rs)) rs
      ∙ keep_ext _ _ rs (has_handle-in_guard rs distinct)

  -- The program of SyncGuard leaves the rules outside the guard as they are and the new guard, in
  -- order, behind them.
  pub guard_program_lem :
      (want : List PortProto) (old new : List NftRule)
      → ((h : ℤ) → count (at_handle h) old ≤ 1)
      → Applies
          (guard_program nft parse_ip is_v4 prefix
            (guard_rules nft parse_ip is_v4 prefix (map rule_of old))
            want)
          old
          new
      → (tail : List NftRule) × (new ≡ outside old ++ tail) × Stands want tail
  unfolding guard_program
  guard_program_lem want old new distinct h =
      let gone =
        Applies-deletes (guard_rules nft parse_ip is_v4 prefix (map rule_of old)) _ old new h in
      Applies-appends want (outside old) new (
        subst
          (λ rs. Applies (map (λ p. append (guard_rule nft parse_ip is_v4 prefix p)) want) rs new)
          (without_guard old distinct) gone)
