-- ===== src/Firewall/Names/Laws.antt =====
-- What ValidName guarantees.
use nft_okboy_fleet.Prelude.{
  ℕ, Text, nat_discrete, true, false, [], ◌∷◌, ◌≡◌, ◌≢◌, ◌≤◌, ◌⊎◌, ◌↔◌, refl, Bool-discrete, arith,
  All, length,
}
use nft_okboy_fleet.Firewall.Lawful.{IsPlain}
use nft_okboy_fleet.Firewall.Names.{valid_name, alphanumeric, name_byte, name_bytes}

-- The bytes of the pattern, as ranges of ASCII codes.
abbrev pub IsAlnum : ℕ → Type 0
IsAlnum c = ((48 ≤ c) × (c ≤ 57)) ⊎ (((65 ≤ c) × (c ≤ 90)) ⊎ ((97 ≤ c) × (c ≤ 122)))

abbrev pub IsNameByte : ℕ → Type 0
IsNameByte c = IsAlnum c ⊎ ((c ≡ 95) ⊎ (c ≡ 45))

-- ^[A-Za-z0-9][A-Za-z0-9_-]{0,63}$
abbrev pub IsName : Text → Type 0
IsName [] = ⊥
IsName (c ∷ s) = IsAlnum c × (All IsNameByte s × (length s ≤ 63))

alphanumeric_iff : (c : ℕ) → (alphanumeric c ≡ true) ↔ IsAlnum c
alphanumeric_iff c = (λ h. ground (arith, h), λ h. ground (arith, h))

name_byte_iff : (c : ℕ) → (name_byte c ≡ true) ↔ IsNameByte c
name_byte_iff c = (λ h. ground (arith, h), λ h. ground (arith, h))

name_bytes_iff : (s : Text) → (name_bytes s ≡ true) ↔ All IsNameByte s
name_bytes_iff [] = (λ h. tt, λ h. refl)
name_bytes_iff (c ∷ s) = (
  λ h. ((name_byte_iff c).0 (ground (arith, h)), (name_bytes_iff s).0 (ground (arith, h))),
  λ h. rw ((name_byte_iff c).1 h.0) ((name_bytes_iff s).1 h.1),
)

-- ValidName holds exactly of the names of 1 to 64 bytes that begin with an ASCII letter or digit and
-- go on with ASCII letters, digits, `_` and `-` (the codes 48 to 57, 65 to 90, 97 to 122, 95 and 45).
pub valid_name_iff : (s : Text) → (valid_name s ≡ true) ↔ IsName s
unfolding valid_name
valid_name_iff [] = (λ h. absurd (ground (arith, h)), λ h. elim h [ ])
valid_name_iff (c ∷ s) = (
  λ h. (
    (alphanumeric_iff c).0 (ground (arith, h)),
    ((name_bytes_iff s).0 (ground (arith, h)), ground (arith, h)),
  ),
  λ h. rw ((alphanumeric_iff c).1 h.0, (name_bytes_iff s).1 h.1.0) (ground (arith, h.1.1)),
)

All-name_bytes : (s : Text) → valid_name s ≡ true → All (λ c. name_byte c ≡ true) s
unfolding valid_name
All-name_bytes [] h = tt
All-name_bytes (c ∷ s) h = (ground (arith, h), each s (ground (arith, h)))
  where
    each : (t : Text) → name_bytes t ≡ true → All (λ c. name_byte c ≡ true) t
    each [] g = tt
    each (d ∷ t) g = (ground (arith, g), each t (ground (arith, g)))

All-ne :
    (d : ℕ) (s : Text) → name_byte d ≡ false → All (λ c. name_byte c ≡ true) s → All (λ c. c ≢ d) s
All-ne d [] h _ = tt
All-ne d (c ∷ s) h a = (ground arith, All-ne d s h a.1)

-- A byte outside the allowed ones does not occur in a valid name.
pub valid_name-lacks :
    (d : ℕ) (s : Text) → name_byte d ≡ false → valid_name s ≡ true → All (λ c. c ≢ d) s
valid_name-lacks d s h v = All-ne d s h (All-name_bytes s v)

pub valid_name-nonempty : (s : Text) → valid_name s ≡ true → s ≢ []
unfolding valid_name
valid_name-nonempty s h = ground arith

-- A valid name stands in a comment unharmed.
pub valid_name-IsPlain : (s : Text) → valid_name s ≡ true → IsPlain s
valid_name-IsPlain s h = (valid_name-lacks b':' s (ground arith) h, valid_name-nonempty s h)
