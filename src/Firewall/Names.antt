-- ===== src/Firewall/Names.antt =====
-- ValidName (internal/firewall/backend.go): the names that may reach a rule's comment.
pub mod Laws
use nft_okboy_fleet.Prelude.{
  ℕ, Text, Bool, true, false, [], ◌∷◌, ◌||◌, ◌&&◌, leb, ◌==◌, nat_discrete, length,
}

-- [A-Za-z0-9] and [A-Za-z0-9_-]
abbrev pub alphanumeric : ℕ → Bool
alphanumeric c =
    (leb b'A' c && leb c b'Z') || (leb b'a' c && leb c b'z') || (leb b'0' c && leb c b'9')

abbrev pub name_byte : ℕ → Bool
name_byte c = alphanumeric c || (c == b'_') || (c == b'-')

abbrev pub name_bytes : Text → Bool
name_bytes [] = true
name_bytes (c ∷ s) = name_byte c && name_bytes s

-- ^[A-Za-z0-9][A-Za-z0-9_-]{0,63}$
unfoldable pub valid_name : Text → Bool
unfolding nat_discrete
valid_name [] = false
valid_name (c ∷ s) = alphanumeric c && name_bytes s && leb (length s) 63
