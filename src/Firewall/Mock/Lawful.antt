-- ===== src/Firewall/Mock/Lawful.antt =====
-- The mock backend obeys the laws that the policies assume.
use nft_okboy_fleet.Prelude.{
  ℕ, ℤ, pos, ℤ-discrete, Text, Text-discrete, Bool, true, Option, none, some, List, [], ◌∷◌, ◌++◌,
  ◌+◌, ◌≤◌, ◌≡◌, ◌≢◌, refl, sym, ◌∙◌, ap, ◌&&◌, not, keep, count, count-append, count-keep,
  count-le, count_ext, count-not_none, Option-cases, inl, inr, has_prefix, has_prefix-append, arith,
}
use nft_okboy_fleet.Firewall.{Rule, FwError, listed}
use nft_okboy_fleet.Firewall.Lawful.{Key, key_of, by_handle, Adds, Removes, Laws, of_user}
use nft_okboy_fleet.Firewall.Comment.{comment_for, managed_prefix}
use nft_okboy_fleet.Firewall.Comment.Laws.{user_prefix-managed}
use nft_okboy_fleet.Firewall.Mock.{
  MockBackend, mock, drop_first, new_rule, add_rule, delete_by_handle, list_managed, managed,
  list_user_rules,
}
use mathlib.Core.List.{append_assoc}

pub record IsValid (prefix : Text) (m : MockBackend) : Type 0 where
  pub prefix_is : m.prefix ≡ prefix
  pub fresh : (n : ℕ) → m.next ≤ n → count (by_handle (pos n)) m.rules ≡ 0
  pub distinct : (h : ℤ) → count (by_handle h) m.rules ≤ 1

keep-append : (p : Rule → Bool) (xs ys : List Rule) → keep p (xs ++ ys) ≡ keep p xs ++ keep p ys
keep-append p [] ys = refl
keep-append p (x ∷ xs) ys = ground (arith, keep-append p xs ys)

-- Taking out the first rule of a handle that at most one rule has takes out the handle's rules.
drop_first_counts :
    (h : ℤ) (rs rest : List Rule)
    → count (by_handle h) rs ≤ 1
    → drop_first (by_handle h) rs ≡ some rest
    → (q : Rule → Bool) → count q rest ≡ count (λ r. q r && not (by_handle h r)) rs
unfolding drop_first
drop_first_counts h [] rest d e q = ground arith
drop_first_counts h (r ∷ rs) rest d e q = elim (Option-cases (drop_first (by_handle h) rs)) [
  | inl out ↦ ground (arith, count-not_none q (by_handle h) rs)
  | inr (rest', found) ↦ ground (
    arith,
    count-not_none q (by_handle h) rs,
    drop_first_counts h rs rest' (ground arith) found q,
  )
]

drop_first-none :
    (h : ℤ) (rs : List Rule) → drop_first (by_handle h) rs ≡ none → count (by_handle h) rs ≡ 0
unfolding drop_first
drop_first-none h [] e = refl
drop_first-none h (r ∷ rs) e = ground (arith, drop_first-none h rs)

comment_for-managed :
    (prefix user group : Text)
    → has_prefix (comment_for prefix user group) (managed_prefix prefix) ≡ true
unfolding comment_for
comment_for-managed prefix user group = ground (
  arith,
  append_assoc prefix (b':' ∷ []) user,
  append_assoc prefix (b':' ∷ []) (user ++ b':' ∷ group),
  has_prefix-append (managed_prefix prefix) user,
  has_prefix-append (managed_prefix prefix) (user ++ b':' ∷ group),
)

count-keep_swap :
    (p q k : Rule → Bool) (xs ys : List Rule)
    → ((t : Rule → Bool) → count t ys ≡ count (λ r. t r && not (k r)) xs)
    → count q (keep p ys) ≡ count (λ r. q r && not (k r)) (keep p xs)
count-keep_swap p q k xs ys h =
    count-keep q p ys
    ∙ h (λ r. q r && p r)
    ∙ count_ext _ _ xs (λ r. ground arith)
    ∙ sym (count-keep (λ r. q r && not (k r)) p xs)

module _ (prefix : Text) (k : Key) (m : MockBackend) where
  abbrev answer : Option FwError × MockBackend
  answer = add_rule k.ip k.port k.user k.proto k.group m

  abbrev rule : Rule
  rule = new_rule k.ip k.port k.user k.proto k.group m

  add_done_rules :
      answer.0 ≡ none → (answer.1.rules ≡ m.rules ++ rule ∷ []) × (answer.1.prefix ≡ m.prefix)
  unfolding add_rule
  add_done_rules h = ground arith

  add_done_next : answer.0 ≡ none → answer.1.next ≡ m.next + 1
  unfolding add_rule
  add_done_next h = ground arith

  pub add_failed_same : answer.0 ≢ none → answer.1 ≡ m
  unfolding add_rule
  add_failed_same h = ground arith

  pub add_IsValid : IsValid prefix m → IsValid prefix answer.1
  add_IsValid v = elim (Option-cases answer.0) [
    | inl ok ↦ record {
      prefix_is = ground (arith, (add_done_rules ok).1, v.prefix_is);
      fresh = λ n le.
          rw ((add_done_rules ok).0, count-append) (ground (arith, v.fresh n, add_done_next ok));
      distinct = λ h.
          rw ((add_done_rules ok).0, count-append) (ground (arith, v.distinct h, v.fresh m.next));
    }
    | inr (e, bad) ↦ rw (add_failed_same (ground arith)) v
  ]

  pub add_Adds : IsValid prefix m → answer.0 ≡ none → Adds prefix k (managed m) (managed answer.1)
  unfolding key_of
  add_Adds v ok = record {
    rule = rule;
    key = refl;
    comment = ap (λ (x : Text). comment_for x k.user k.group) v.prefix_is;
    fresh =
        let bound : count (by_handle (pos m.next)) (managed m)
            ≤ count (by_handle (pos m.next)) m.rules =
          rw count-keep (count-le (by_handle (pos m.next)) _ m.rules) in
        omega (arith, bound, v.fresh m.next (omega arith));
    counts = λ p.
        rw ((add_done_rules ok).0, (add_done_rules ok).1, keep-append, count-append)
          (ground (arith, comment_for-managed m.prefix k.user k.group));
  }

module _ (prefix : Text) (h : ℤ) (m : MockBackend) where
  abbrev reply : Option FwError × MockBackend
  reply = delete_by_handle h m

  delete_rules :
      IsValid prefix m
      → reply.0 ≡ none
      → (q : Rule → Bool) → count q reply.1.rules ≡ count (λ r. q r && not (by_handle h r)) m.rules
  unfolding delete_by_handle
  delete_rules v ok q = elim (Option-cases (drop_first (by_handle h) m.rules)) [
    | inl out ↦
        ground (arith, drop_first-none h m.rules out, count-not_none q (by_handle h) m.rules)
    | inr (rest, found) ↦ ground (arith, drop_first_counts h m.rules rest (v.distinct h) found q)
  ]

  delete_same : (reply.1.prefix ≡ m.prefix) × (reply.1.next ≡ m.next)
  unfolding delete_by_handle
  delete_same = (ground arith, ground arith)

  pub delete_failed_same : reply.0 ≢ none → reply.1 ≡ m
  unfolding delete_by_handle
  delete_failed_same bad = ground arith

  pub delete_IsValid : IsValid prefix m → IsValid prefix reply.1
  delete_IsValid v = elim (Option-cases reply.0) [
    | inl ok ↦ record {
      prefix_is = ground (arith, delete_same.0, v.prefix_is);
      fresh = λ n le. omega (
        arith,
        delete_rules v ok (by_handle (pos n)),
        v.fresh n (omega (arith, delete_same.1)),
        count-le (by_handle (pos n)) (λ r. not (by_handle h r)) m.rules,
      );
      distinct = λ j. omega (
        arith,
        delete_rules v ok (by_handle j),
        v.distinct j,
        count-le (by_handle j) (λ r. not (by_handle h r)) m.rules,
      );
    }
    | inr (e, bad) ↦ rw (delete_failed_same (ground arith)) v
  ]

  pub delete_Removes : IsValid prefix m → reply.0 ≡ none → Removes h (managed m) (managed reply.1)
  delete_Removes v ok q =
      rw delete_same.0 (count-keep_swap _ q (by_handle h) m.rules reply.1.rules (delete_rules v ok))

pub list_same : (m : MockBackend) → (list_managed m).1 ≡ m
unfolding list_managed
list_same m = ground arith

pub list_all : (m : MockBackend) (rs : List Rule) → (list_managed m).0 ≡ listed rs → rs ≡ managed m
unfolding list_managed
list_all m rs h = ground arith

pub managed_distinct :
    (prefix : Text) (m : MockBackend)
    → IsValid prefix m
    → (h : ℤ) → count (by_handle h) (managed m) ≤ 1
managed_distinct prefix m v h =
    let bound : count (by_handle h) (managed m) ≤ count (by_handle h) m.rules =
      rw count-keep (count-le (by_handle h) _ m.rules) in
    omega (arith, bound, v.distinct h)

keep-keep :
    (p q : Rule → Bool) (rs : List Rule)
    → ((r : Rule) → p r ≡ true → q r ≡ true)
    → keep p rs ≡ keep p (keep q rs)
keep-keep p q [] h = refl
keep-keep p q (r ∷ rs) h = ground (arith, h r, keep-keep p q rs h)

pub list_user_same :
    (user : Text) (m : MockBackend) → managed (list_user_rules user m).1 ≡ managed m
unfolding list_user_rules
list_user_same user m = ground arith

pub list_user_valid :
    (prefix user : Text) (m : MockBackend)
    → IsValid prefix m
    → IsValid prefix (list_user_rules user m).1
list_user_valid prefix user m v = record {
  prefix_is = unfold list_user_rules in ground (arith, v.prefix_is);
  fresh = λ n le. unfold list_user_rules in ground (arith, v.fresh n);
  distinct = λ h. unfold list_user_rules in ground (arith, v.distinct h);
}

pub list_user_all :
    (prefix user : Text) (m : MockBackend) (rs : List Rule)
    → IsValid prefix m
    → (list_user_rules user m).0 ≡ listed rs
    → rs ≡ keep (of_user prefix user) (managed m)
unfolding list_user_rules
list_user_all prefix user m rs v h = ground (
  arith,
  v.prefix_is,
  keep-keep (of_user m.prefix user) (λ r. has_prefix r.comment (managed_prefix m.prefix)) m.rules
      (λ r. user_prefix-managed m.prefix user r.comment),
)

-- The interface's laws, with the managed rules as the view of the state.
abbrev pub mock_laws : Text → Laws mock
mock_laws prefix = record {
  prefix = prefix;
  rules = managed;
  IsValid = IsValid prefix;
  unique = managed_distinct prefix;
  list_valid = λ m v. rw list_same v;
  list_keeps = λ m. ap managed (list_same m);
  list_all = list_all;
  list_user_valid = list_user_valid prefix;
  list_user_keeps = list_user_same;
  list_user_all = list_user_all prefix;
  add_valid = add_IsValid prefix;
  add_done = λ k m plain. add_Adds prefix k m;
  add_failed = λ k m bad. ap managed (add_failed_same prefix k m bad);
  delete_valid = delete_IsValid prefix;
  delete_done = delete_Removes prefix;
  delete_failed = λ h m bad. ap managed (delete_failed_same prefix h m bad);
}
