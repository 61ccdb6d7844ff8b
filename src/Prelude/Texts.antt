-- ===== src/Prelude/Texts.antt =====
-- Go strings that the program takes apart are lists of their bytes.
use Prim.Native.Char.{code}
use Prim.Native.String.{String}
use Prim.Native.Nat.{ℕ}
use mathlib.Core.Path.{◌≡◌, refl}
use mathlib.Core.Bool.{Bool, true, false, ◌&&◌}
use mathlib.Core.List.{List, [], ◌∷◌, ◌++◌}
use mathlib.Core.Option.{Option, none, some}
use native.Mathlib.Omega.{arith}
use native.Mathlib.Decide.{ℕ_discrete}
use nft_okboy_fleet.Prelude.Tests.{if◌then◌else◌, ◌==◌, nat_discrete}

abbrev pub Text : Type 0
Text = List ℕ

instance unfoldable pub Text-discrete : Discrete Text
unfolding ℕ_discrete
Text-discrete = hlevel ℕ_discrete

-- The bytes of an ASCII literal.
abbrev pub text : String → Text
text String.[] = []
text (String.◌∷◌ c s) = code c ∷ text s

-- strings.HasPrefix(s, p), and s[len(p):] for a text that has the prefix.
unfoldable pub has_prefix : Text → Text → Bool
unfolding nat_discrete
has_prefix s [] = true
has_prefix [] (c ∷ p) = false
has_prefix (d ∷ s) (c ∷ p) = (c == d) && has_prefix s p

unfoldable pub strip_prefix : Text → Text → Text
strip_prefix s [] = s
strip_prefix [] (c ∷ p) = []
strip_prefix (d ∷ s) (c ∷ p) = strip_prefix s p

-- `i := strings.IndexByte(s, c)` with the slices s[:i] and s[i+1:]; `none` is i < 0.
unfoldable pub cut : ℕ → Text → Option (Text × Text)
unfolding nat_discrete
cut c [] = none
cut c (d ∷ s) =
    if d == c then some ([], s) else elim (cut c s) [ none ↦ none | some (a, b) ↦ some (d ∷ a, b) ]

pub has_prefix-append : (p s : Text) → has_prefix (p ++ s) p ≡ true
unfolding has_prefix
has_prefix-append [] s = refl
has_prefix-append (c ∷ p) s = ground (arith, has_prefix-append p s)

pub strip_prefix-append : (p s : Text) → strip_prefix (p ++ s) p ≡ s
unfolding strip_prefix
strip_prefix-append [] s = refl
strip_prefix-append (c ∷ p) s = strip_prefix-append p s

-- A text with the prefix is the prefix and the rest.
pub append-strip_prefix : (s p : Text) → has_prefix s p ≡ true → s ≡ p ++ strip_prefix s p
unfolding has_prefix strip_prefix
append-strip_prefix s [] h = refl
append-strip_prefix [] (c ∷ p) h = ground arith
append-strip_prefix (d ∷ s) (c ∷ p) h = ground (arith, append-strip_prefix s p)
