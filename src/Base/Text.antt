-- ===== src/Base/Text.antt =====
-- Go strings as lists of code points, and the functions of `strings` that the program calls.
use Prim.Native.Char.{code}
use Prim.Native.String.{String}
use Prim.Native.Nat.{ℕ}
use mathlib.Core.Path.{◌≡◌, refl}
use mathlib.Core.Logic.{ite}
use mathlib.Core.Bool.{Bool, true, false, ◌&&◌, ◌||◌}
use mathlib.Core.List.{List, [], ◌∷◌, reverse}
unfoldable use native.Mathlib.Decide.{ℕ_discrete}
use proxy_for_windows_app.Base.Tests.{◌==◌, leb, if◌then◌else◌}

abbrev pub Text : Type 0
Text = List ℕ

-- A literal of the source.
abbrev pub codes : String → Text
codes String.[] = []
codes (String.◌∷◌ c s) = code c ∷ codes s

unfoldable pub Text-discrete : Discrete Text
Text-discrete = hlevel ℕ_discrete

-- `a == b` on strings.
abbrev pub same : Text → Text → Bool
same a b = ite (Text-discrete a b) true false

-- `unicode.IsSpace`.
unfoldable pub is_space : ℕ → Bool
is_space c =
    (leb 9 c && leb c 13)
    || c == 32
    || c == 0x85
    || c == 0xA0
    || c == 0x1680
    || (leb 0x2000 c && leb c 0x200a)
    || c == 0x2028
    || c == 0x2029
    || c == 0x202f
    || c == 0x205f
    || c == 0x3000

trim_left : Text → Text
trim_left [] = []
trim_left (c ∷ s) = let rest = trim_left s in if is_space c then rest else c ∷ s

-- `strings.TrimSpace`.
unfoldable pub trim_space : Text → Text
unfolding trim_left is_space
trim_space s = reverse (trim_left (reverse (trim_left s)))

-- `strings.HasPrefix`.
unfoldable pub has_prefix : Text → Text → Bool
has_prefix s [] = true
has_prefix [] (p ∷ ps) = false
has_prefix (c ∷ s) (p ∷ ps) = c == p && has_prefix s ps

-- `strings.Contains`.
unfoldable pub contains : Text → Text → Bool
unfolding has_prefix
contains [] sub = has_prefix [] sub
contains (c ∷ s) sub = has_prefix (c ∷ s) sub || contains s sub

unfoldable pub on_head : (Text → Text) → List Text → List Text
on_head f [] = f [] ∷ []
on_head f (t ∷ ts) = f t ∷ ts

-- `strings.Split` at a separator of one character.
unfoldable pub split : ℕ → Text → List Text
unfolding on_head
split sep [] = [] ∷ []
split sep (c ∷ s) = let rest = split sep s in if c == sep then [] ∷ rest else on_head (◌∷◌ c) rest

test_split : split b':' (codes "a:bc:") ≡ codes "a" ∷ codes "bc" ∷ [] ∷ []
unfolding split
test_split = refl

test_trim : trim_space (codes " a b\t") ≡ codes "a b"
unfolding trim_space
test_trim = refl

test_same : same (codes "ab") (codes "ab") ≡ true
unfolding Text-discrete ℕ_discrete
test_same = refl
