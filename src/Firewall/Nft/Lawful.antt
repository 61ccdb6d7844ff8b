-- ===== src/Firewall/Nft/Lawful.antt =====
-- The nftables backend as an implementation of the interface's laws, over nft as it is documented.
use nft_okboy_fleet.Prelude.{
  ◌+◌, ◌≤◌, ◌≡◌, refl, ap, inl, inr, Bool, true, ◌&&◌, not, Option, none, List, [], ◌∷◌, map, arith,
  if◌then◌else◌, ◌==◌, nat_discrete, Bool-discrete, Bool-cases, Option-cases, ℤ, ℤ-discrete, count,
  keep, Text, Text-discrete, has_prefix, ◌≢◌, ◌∙◌,
}
use nft_okboy_fleet.Firewall.{Rule, FwError, listed, known_proto, check_rule}
use nft_okboy_fleet.Firewall.Comment.{managed_prefix, user_prefix}
use nft_okboy_fleet.Firewall.Comment.Laws.{
  user_prefix-managed, split_comment-comment_for, has_prefix-comment_for_managed,
}
use nft_okboy_fleet.Firewall.Lawful.{
  Key, by_handle, of_user, Removes, IsPlainKey, Adds, Laws, key_of,
}
use nft_okboy_fleet.Firewall.Nft.{
  Nft, NftRule, NewRule, insert, rule_of, filtered, with_owner, list_chain, list_filtered, add_rule,
  allow_rule, delete_by_handle, list_managed, list_user_rules, delete, nft_backend,
}
use nft_okboy_fleet.Firewall.Nft.Kernel.{Documented, at_handle, stored}
use nft_okboy_fleet.Firewall.Nft.Parse.{rule_of_keeps, rule_of-allow}

module _ (nft : Nft) (parse_ip : Text → Option Text) (is_v4 : Text → Bool) (prefix : Text) where
  -- The managed rules of a chain, as a listing shows them.
  abbrev pub managed : List NftRule → List Rule
  managed rs = filtered nft parse_ip is_v4 prefix (managed_prefix prefix) (map rule_of rs)

  abbrev owned : NftRule → Rule
  owned r = with_owner nft parse_ip is_v4 prefix (rule_of r)

  pub count-managed :
      (q : Rule → Bool) (r : NftRule) (rs : List NftRule)
      → count q (managed (r ∷ rs))
        ≡ (if has_prefix r.comment (managed_prefix prefix) && q (owned r) then 1 else 0)
          + count q (managed rs)
  unfolding filtered
  count-managed q r rs =
      rw ((rule_of_keeps r).1) (elim (Bool-cases (has_prefix r.comment (managed_prefix prefix))) [
        | inl h ↦ rw h refl
        | inr h ↦ rw h (omega arith)
      ])

  handle_one :
      (h : ℤ) (r : NftRule) (rs : List NftRule)
      → count (by_handle h) (managed rs) ≤ count (at_handle h) rs
      → count (by_handle h) (managed (r ∷ rs)) ≤ count (at_handle h) (r ∷ rs)
  handle_one h r rs ih =
      rw (count-managed (by_handle h) r rs, (rule_of_keeps r).0)
        (elim (Bool-cases (at_handle h r)) [
          | inl e ↦ ground (arith, e, ih)
          | inr e ↦ ground (arith, e, ih)
        ])

  -- Fewer managed rules than rules have a handle.
  pub handle-managed :
      (h : ℤ) (rs : List NftRule) → count (by_handle h) (managed rs) ≤ count (at_handle h) rs
  unfolding filtered
  handle-managed h [] = omega arith
  handle-managed h (r ∷ rs) = handle_one h r rs (handle-managed h rs)

  -- A listing by user is the user's part of the listing of managed rules.
  pub filtered-user :
      (user : Text) (rs : List Rule)
      → filtered nft parse_ip is_v4 prefix (user_prefix prefix user) rs
        ≡ keep (of_user prefix user) (filtered nft parse_ip is_v4 prefix (managed_prefix prefix) rs)
  unfolding filtered
  filtered-user user [] = refl
  filtered-user user (r ∷ rs) =
      ground (arith, user_prefix-managed prefix user r.comment, filtered-user user rs)

  abbrev others : ℤ → List NftRule → List NftRule
  others h rs = keep (λ r. not (at_handle h r)) rs

  removes_one :
      (h : ℤ) (r : NftRule) (rs : List NftRule) (q : Rule → Bool)
      → count q (managed (others h rs)) ≡ count (λ x. q x && not (by_handle h x)) (managed rs)
      → count q (managed (others h (r ∷ rs)))
        ≡ count (λ x. q x && not (by_handle h x)) (managed (r ∷ rs))
  removes_one h r rs q ih =
      let same : by_handle h (owned r) ≡ at_handle h r = ap (λ x. x == h) (rule_of_keeps r).0 in
      rw (count-managed (λ x. q x && not (by_handle h x)) r rs) (elim (Bool-cases (at_handle h r)) [
        | inl e ↦ rw e (ground (arith, ih, same, e))
        | inr e ↦ rw (e, count-managed q r (others h rs)) (ground (arith, ih, same, e))
      ])

  -- Taking a handle's rules out of the chain takes them out of the managed rules.
  pub Removes-managed :
      (h : ℤ) (rs : List NftRule)
      → Removes h (managed rs) (managed (keep (λ r. not (at_handle h r)) rs))
  unfolding filtered
  Removes-managed h [] q = refl
  Removes-managed h (r ∷ rs) q = removes_one h r rs q (Removes-managed h rs q)

  module _ (doc : Documented nft) where
    abbrev rules : nft.Kernel → List Rule
    rules k = managed (doc.chain k)

    abbrev check : Key → Option FwError
    check k = check_rule parse_ip k.ip k.port k.proto

    check_proto : (k : Key) → check k ≡ none → known_proto k.proto ≡ true
    unfolding check_rule
    check_proto k h = ground arith

    abbrev command : Key → NewRule
    command k = allow_rule nft parse_ip is_v4 prefix k.ip k.port k.user k.proto k.group

    abbrev asked : Key → nft.Kernel → Option FwError × nft.Kernel
    asked k s = add_rule nft parse_ip is_v4 prefix k.ip k.port k.user k.proto k.group s

    -- An addition that returns nil is a transaction that ran.
    ran :
        (k : Key) (s : nft.Kernel)
        → (asked k s).0 ≡ none
        → (check k ≡ none)
          × ((nft.run (insert (command k) ∷ []) s).0 ≡ true)
          × ((asked k s).1 ≡ (nft.run (insert (command k) ∷ []) s).1)
    unfolding add_rule
    ran k s h = elim (Option-cases (check k)) [
      | inl fine ↦ (fine, ground (arith, h, fine), ground (arith, h, fine))
      | inr (e, bad) ↦ absurd (ground (arith, h, bad))
    ]

    pub list_lem :
        (k : nft.Kernel) (want : Text) (rs : List Rule)
        → list_filtered nft parse_ip is_v4 prefix want k ≡ listed rs
        → rs ≡ filtered nft parse_ip is_v4 prefix want (map rule_of (doc.chain k))
    unfolding list_filtered list_chain
    list_lem k want rs h = elim (Option-cases (nft.list k)) [
      | inl no_list ↦ absurd (ground (arith, h, no_list))
      | inr (raws, e) ↦ ground (arith, h, e, doc.listing k raws e)
    ]

    pub add_Adds :
        (k : Key) (s : nft.Kernel)
        → IsPlainKey k
        → (asked k s).0 ≡ none
        → Adds prefix k (rules s) (rules (asked k s).1)
    unfolding key_of
    add_Adds k s plain h =
        let (fine, done, state) = ran k s h in
        let (handle, fresh, new) = doc.applied (insert (command k) ∷ []) s done in
        let split = split_comment-comment_for prefix k.user k.group plain.0.0 in
        let raw = stored handle (command k) in
        let comment = (rule_of_keeps raw).1 in
        let (ip, port, proto) =
          rule_of-allow nft parse_ip is_v4 prefix handle k.ip k.port k.proto k.user k.group
            (check_proto k fine) in
        record {
          rule = owned raw;
          key = rw (ip, port, proto, comment, split) refl;
          comment = comment;
          fresh =
              rw (rule_of_keeps raw).0 (omega (arith, handle-managed handle (doc.chain s), fresh));
          counts = λ q.
              rw
                (
                  state,
                  new,
                  count-managed q raw (doc.chain s),
                  has_prefix-comment_for_managed prefix k.user k.group plain.1.1,
                )
                (omega arith);
        }

    pub delete_Removes :
        (h : ℤ) (s : nft.Kernel)
        → (delete_by_handle nft parse_ip is_v4 prefix h s).0 ≡ none
        → Removes h (rules s) (rules (delete_by_handle nft parse_ip is_v4 prefix h s).1)
    unfolding delete_by_handle
    delete_Removes h s ok =
        let new = doc.applied (delete h ∷ []) s (ground (arith, ok)) in
        rw new (Removes-managed h (doc.chain s))

    pub add_same :
        (k : Key) (s : nft.Kernel) → (asked k s).0 ≢ none → doc.chain (asked k s).1 ≡ doc.chain s
    unfolding add_rule
    add_same k s bad = elim (Option-cases (check k)) [
      | inr (e, refused) ↦ ap doc.chain (ground (arith, refused))
      | inl fine ↦
          let ran : (asked k s).1 ≡ (nft.run (insert (command k) ∷ []) s).1 =
            ground (arith, fine) in
          ap doc.chain ran ∙ doc.refused (insert (command k) ∷ []) s (ground (arith, bad, fine))
    ]

    pub delete_same :
        (h : ℤ) (s : nft.Kernel)
        → (delete_by_handle nft parse_ip is_v4 prefix h s).0 ≢ none
        → doc.chain (delete_by_handle nft parse_ip is_v4 prefix h s).1 ≡ doc.chain s
    unfolding delete_by_handle
    delete_same h s bad = doc.refused (delete h ∷ []) s (ground (arith, bad))

    -- The interface's laws, with the managed rules of the chain as the view of the state.
    unfoldable pub nft_laws : Laws (nft_backend nft parse_ip is_v4 prefix)
    unfolding list_managed list_user_rules
    nft_laws = record {
      prefix = prefix;
      rules = rules;
      IsValid = λ s. Unit {0};
      unique = λ s v h. omega (arith, handle-managed h (doc.chain s), doc.handles s h);
      list_valid = λ s v. tt;
      list_keeps = λ s. refl;
      list_all = λ s rs h. list_lem s (managed_prefix prefix) rs h;
      list_user_valid = λ user s v. tt;
      list_user_keeps = λ user s. refl;
      list_user_all = λ user s rs v h.
          list_lem s (user_prefix prefix user) rs h
          ∙ filtered-user user (map rule_of (doc.chain s));
      add_valid = λ k s v. tt;
      add_done = λ k s plain v h. add_Adds k s plain h;
      add_failed = λ k s bad. ap managed (add_same k s bad);
      delete_valid = λ h s v. tt;
      delete_done = λ h s v ok. delete_Removes h s ok;
      delete_failed = λ h s bad. ap managed (delete_same h s bad);
    }
