-- ===== src/Firewall/Comment.antt =====
-- The comments of managed rules: commentFor and Comment (internal/firewall/backend.go), splitComment
-- (internal/firewall/nft.go) and groupFromComment (firewall/manager.go).
pub mod Laws
use nft_okboy_fleet.Prelude.{
  Text, Text-discrete, Bool, true, false, Option, none, some, [], ◌∷◌, ◌++◌, ◌==◌, if◌then◌else◌,
  has_prefix, strip_prefix, cut,
}

-- prefix + ":" + user, and with ":" + group where there is a group
unfoldable pub comment_for : Text → Text → Text → Text
comment_for prefix user group =
    if group == [] then prefix ++ b':' ∷ user else prefix ++ (b':' ∷ (user ++ (b':' ∷ group)))

-- "<prefix>:" and "<prefix>:<user>:", the prefixes by which rules are listed
abbrev pub managed_prefix : Text → Text
managed_prefix prefix = prefix ++ b':' ∷ []

abbrev pub user_prefix : Text → Text → Text
user_prefix prefix user = prefix ++ (b':' ∷ (user ++ b':' ∷ []))

-- (user, group) of a comment; ("", "") without the prefix, (user, "") in the older format
unfoldable pub split_comment : Text → Text → Text × Text
split_comment prefix comment =
    let rest = strip_prefix comment (managed_prefix prefix) in
    if has_prefix comment (managed_prefix prefix)
    then (elim (cut b':' rest) [ none ↦ (rest, []) | some (user, group) ↦ (user, group) ])
    else ([], [])

-- The suffix up to the next colon; its empty case, `if suffix == "" { return "" }`, is the same.
unfoldable pub group_from_comment : Text → Text → Text → Text
group_from_comment prefix user comment =
    let suffix = strip_prefix comment (user_prefix prefix user) in
    if has_prefix comment (user_prefix prefix user)
    then if suffix == []
      then []
      else (elim (cut b':' suffix) [ none ↦ suffix | some (group, _) ↦ group ])
    else []
