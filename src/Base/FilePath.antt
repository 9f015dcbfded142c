-- ===== src/Base/FilePath.antt =====
-- The functions of `path/filepath` on Windows that the program calls. `volume_len` stands for the
-- length of `filepath.VolumeName`.
use Prim.Native.Nat.{ℕ}
use mathlib.Core.Path.{◌≡◌, refl}
use mathlib.Core.Bool.{Bool, true, false, not, ◌&&◌, ◌||◌}
use mathlib.Core.List.{[], ◌∷◌, reverse}
use proxy_for_windows_app.Base.Tests.{◌==◌, if◌then◌else◌}
use proxy_for_windows_app.Base.Lists.{length, drop, any}
use proxy_for_windows_app.Base.Text.{Text, codes, has_prefix}

-- `os.IsPathSeparator`
unfoldable pub is_separator : ℕ → Bool
is_separator c = c == 92 || c == 47

-- The part of a path behind its last separator.
unfoldable pub after_separator : Text → Text
unfolding is_separator
after_separator [] = []
after_separator (c ∷ s) =
    let rest = after_separator s in elim (any is_separator (c ∷ s)) [ true ↦ rest | false ↦ c ∷ s ]

drop_separators : Text → Text
drop_separators [] = []
drop_separators (c ∷ s) = let rest = drop_separators s in if is_separator c then rest else c ∷ s

or_separator : Text → Text
or_separator [] = codes "\\"
or_separator (c ∷ s) = c ∷ s

-- `filepath.Base`
unfoldable pub base_name : (Text → ℕ) → Text → Text
unfolding drop_separators or_separator after_separator
base_name volume_len [] = codes "."
base_name volume_len (c ∷ s) =
    let path = reverse (drop_separators (reverse (c ∷ s))) in
    or_separator (after_separator (drop (volume_len path) path))

-- `filepath.Ext`
unfoldable pub ext : Text → Text
unfolding is_separator
ext [] = []
ext (c ∷ s) =
    let later = ext s in
    elim later [ [] ↦ if c == b'.' && not (any is_separator s) then c ∷ s else [] | d ∷ r ↦ d ∷ r ]

-- `strings.TrimSuffix`
unfoldable pub trim_suffix : Text → Text → Text
unfolding has_prefix
trim_suffix s suffix =
    if has_prefix (reverse s) (reverse suffix)
    then reverse (drop (length suffix) (reverse s))
    else s

test_base : base_name (λ p. 2) (codes "C:\\a/x.exe\\") ≡ codes "x.exe"
unfolding base_name
test_base = refl

test_ext : ext (codes "C:\\a.b/x.tar.exe") ≡ codes ".exe"
unfolding ext
test_ext = refl
