-- ===== src/Firewall/Comment/Laws.antt =====
-- What a comment says about its rule, and whose rules a listing by prefix returns.
use nft_okboy_fleet.Prelude.{
  Text, Text-discrete, nat_discrete, true, none, some, [], ◌∷◌, ◌++◌, ◌≡◌, ◌≢◌, refl, sym, ap, ◌∙◌,
  arith, inl, inr, Bool-cases, if◌then◌else◌, All, has_prefix, strip_prefix, cut, has_prefix-append,
  strip_prefix-append, append-strip_prefix, ◌==◌,
}
use nft_okboy_fleet.Firewall.Comment.{
  comment_for, split_comment, group_from_comment, managed_prefix, user_prefix,
}
use mathlib.Core.List.{append_assoc}

-- No colon in a text.
abbrev pub NoColon : Text → Type 0
NoColon = All (λ c. c ≢ b':')

pub cut_first : (a b : Text) → NoColon a → cut b':' (a ++ b':' ∷ b) ≡ some (a, b)
unfolding cut
cut_first [] b h = refl
cut_first (c ∷ a) b h = ground (arith, cut_first a b h.1)

pub cut-none : (a : Text) → NoColon a → cut b':' a ≡ none
unfolding cut
cut-none [] h = refl
cut-none (c ∷ a) h = ground (arith, cut-none a h.1)

-- Two texts that end at their first colon agree when the texts up to there do.
pub colon_unique :
    (a b x y : Text) → NoColon a → NoColon b → a ++ b':' ∷ x ≡ b ++ b':' ∷ y → (a ≡ b) × (x ≡ y)
colon_unique [] [] x y ha hb e = ground arith
colon_unique [] (d ∷ b) x y ha hb e = ground arith
colon_unique (c ∷ a) [] x y ha hb e = ground arith
colon_unique (c ∷ a) (d ∷ b) x y ha hb e = ground (arith, colon_unique a b x y ha.1 hb.1)

comment_parts :
    (prefix user group : Text)
    → group ≢ []
    → comment_for prefix user group ≡ managed_prefix prefix ++ (user ++ b':' ∷ group)
unfolding comment_for
comment_parts prefix user group h =
    ground (arith, append_assoc prefix (b':' ∷ []) (user ++ b':' ∷ group))

split_grouped :
    (prefix user group : Text)
    → NoColon user
    → group ≢ []
    → split_comment prefix (comment_for prefix user group) ≡ (user, group)
unfolding split_comment
split_grouped prefix user group h ne =
    rw
      (
        comment_parts prefix user group ne,
        has_prefix-append (managed_prefix prefix) (user ++ b':' ∷ group),
        strip_prefix-append (managed_prefix prefix) (user ++ b':' ∷ group),
        cut_first user group h,
      )
      refl

alone_parts : (prefix user : Text) → comment_for prefix user [] ≡ managed_prefix prefix ++ user
unfolding comment_for Text-discrete
alone_parts prefix user = sym (append_assoc prefix (b':' ∷ []) user)

split_body :
    (prefix user : Text)
    → NoColon user
    → split_comment prefix (managed_prefix prefix ++ user) ≡ (user, [])
unfolding split_comment
split_body prefix user h =
    rw
      (
        has_prefix-append (managed_prefix prefix) user,
        strip_prefix-append (managed_prefix prefix) user,
        cut-none user h,
        strip_prefix-append (managed_prefix prefix) user,
      )
      refl

-- Splitting the comment that is built for a user gives back the user and the group, provided that the
-- user's name has no colon; the group may be empty, as in comments of the older format.
pub split_comment-comment_for :
    (prefix user group : Text)
    → NoColon user
    → split_comment prefix (comment_for prefix user group) ≡ (user, group)
split_comment-comment_for prefix user [] h =
    ap (split_comment prefix) (alone_parts prefix user) ∙ split_body prefix user h
split_comment-comment_for prefix user (c ∷ group) h =
    split_grouped prefix user (c ∷ group) h (ground arith)

user_parts :
    (prefix user rest : Text)
    → user_prefix prefix user ++ rest ≡ managed_prefix prefix ++ (user ++ b':' ∷ rest)
user_parts prefix user rest = ground (
  arith,
  append_assoc prefix (b':' ∷ []) (user ++ b':' ∷ rest),
  append_assoc prefix (b':' ∷ (user ++ b':' ∷ [])) rest,
  append_assoc user (b':' ∷ []) rest,
)

append_cancel : (p x y : Text) → p ++ x ≡ p ++ y → x ≡ y
append_cancel [] x y e = e
append_cancel (c ∷ p) x y e = append_cancel p x y (ground arith)

-- A listing by the prefix of one user returns the rules of that user and of no other, although one
-- name may begin another.
pub has_prefix-comment_for :
    (prefix user owner group : Text)
    → NoColon user
    → NoColon owner
    → group ≢ []
    → has_prefix (comment_for prefix owner group) (user_prefix prefix user) ≡ (user == owner)
has_prefix-comment_for prefix user owner group hu ho ne =
    rw (comment_parts prefix owner group ne)
      (elim (Text-discrete user owner) [ yes e ↦ own e | no n ↦ other n ])
  where
    body : Text
    body = managed_prefix prefix ++ (owner ++ b':' ∷ group)

    own : user ≡ owner → has_prefix body (user_prefix prefix user) ≡ (user == owner)
    own e =
        let h : has_prefix (user_prefix prefix owner ++ group) (user_prefix prefix owner) ≡ true =
          has_prefix-append (user_prefix prefix owner) group in
        ground (arith, h, user_parts prefix owner group)

    other : user ≢ owner → has_prefix body (user_prefix prefix user) ≡ (user == owner)
    other n = elim (Bool-cases (has_prefix body (user_prefix prefix user))) [
      | inl h ↦ absurd (
          n (
            (colon_unique user owner _ group hu ho (
              append_cancel (managed_prefix prefix) _ _ (
                sym (user_parts prefix user (strip_prefix body (user_prefix prefix user)))
                ∙ sym (append-strip_prefix body (user_prefix prefix user) h)))).0))
      | inr h ↦ ground arith
    ]

-- The group read back from a comment is the rule's group for its own user, and none for another,
-- provided that no name of the two users and the group has a colon and the group's is not empty.
pub group_from_comment-comment_for :
    (prefix user owner group : Text)
    → NoColon user
    → NoColon owner
    → NoColon group
    → group ≢ []
    → group_from_comment prefix user (comment_for prefix owner group)
      ≡ (if user == owner then group else [])
unfolding group_from_comment
group_from_comment-comment_for prefix user owner group hu ho hg ne = ground (
  arith,
  has_prefix-comment_for prefix user owner group hu ho ne,
  comment_parts prefix owner group ne,
  user_parts prefix owner group,
  strip_prefix-append (user_prefix prefix owner) group,
  cut-none group hg,
)

-- A comment from which a group of the user is read starts with the user's prefix.
pub owner_of_group :
    (prefix user comment : Text)
    → group_from_comment prefix user comment ≢ []
    → has_prefix comment (user_prefix prefix user) ≡ true
unfolding group_from_comment
owner_of_group prefix user comment h = ground arith

-- A listing by user is a listing of managed rules.
pub user_prefix-managed :
    (prefix user comment : Text)
    → has_prefix comment (user_prefix prefix user) ≡ true
    → has_prefix comment (managed_prefix prefix) ≡ true
user_prefix-managed prefix user comment h =
    let rest = strip_prefix comment (user_prefix prefix user) in
    rw
      (
        append-strip_prefix comment (user_prefix prefix user) h,
        append_assoc prefix (b':' ∷ (user ++ b':' ∷ [])) rest,
        ← append_assoc prefix (b':' ∷ []) ((user ++ b':' ∷ []) ++ rest),
      )
      (has_prefix-append (managed_prefix prefix) ((user ++ b':' ∷ []) ++ rest))

-- The comment that is built for a rule with a group is that of a managed rule.
pub has_prefix-comment_for_managed :
    (prefix user group : Text)
    → group ≢ []
    → has_prefix (comment_for prefix user group) (managed_prefix prefix) ≡ true
has_prefix-comment_for_managed prefix user group h =
    rw (comment_parts prefix user group h)
      (has_prefix-append (managed_prefix prefix) (user ++ b':' ∷ group))
