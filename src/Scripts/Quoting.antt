-- ===== src/Scripts/Quoting.antt =====
-- A path of the user in a script, as PowerShell reads it.
use proxy_for_windows_app.Base.{
  ℕ, ◌≡◌, refl, inl, inr, Bool, true, false, ◌||◌, ◌&&◌, Option, none, some, [], ◌∷◌, ◌++◌, ◌==◌,
  leb, if◌then◌else◌, arith, Bool-cases, ==→eq, All,
}
use proxy_for_windows_app.Base.Text.{Text}
use proxy_for_windows_app.Scripts.{double_quotes, icon_begin, icon_end, icon_script}

-- The characters that the specification of the language takes for single quotes: the typographic ones too.
unfoldable pub is_quote : ℕ → Bool
is_quote c = c == b'\'' || (leb 0x2018 c && leb c 0x201b)

prefixed : ℕ → Option (Text × Text) → Option (Text × Text)
prefixed c none = none
prefixed c (some (s, rest)) = some (c ∷ s, rest)

-- How PowerShell reads a string behind its opening quote: two quotes stand for one, and a single one
-- ends the string. The result is the string and the rest of the script.
unfoldable pub read_quoted : Text → Option (Text × Text)
unfolding prefixed
read_quoted [] = none
read_quoted (c ∷ []) = if is_quote c then some ([], []) else none
read_quoted (c ∷ d ∷ s) =
    let behind_pair = read_quoted s in
    let behind = read_quoted (d ∷ s) in
    if is_quote c
    then (if is_quote d then prefixed c behind_pair else some ([], d ∷ s))
    else prefixed c behind

read_quoted-pair : (s : Text) → read_quoted (b'\'' ∷ b'\'' ∷ s) ≡ prefixed b'\'' (read_quoted s)
unfolding read_quoted is_quote
read_quoted-pair s = refl

read_quoted-plain :
    (c : ℕ) (front rest : Text) (q : ℕ)
    → is_quote c ≡ false
    → read_quoted (c ∷ (front ++ q ∷ rest)) ≡ prefixed c (read_quoted (front ++ q ∷ rest))
unfolding read_quoted
read_quoted-plain c [] rest q other = rw other refl
read_quoted-plain c (x ∷ front) rest q other = rw other refl

read_quoted-end :
    (q d : ℕ) (rest : Text)
    → is_quote q ≡ true
    → is_quote d ≡ false
    → read_quoted (q ∷ d ∷ rest) ≡ some ([], d ∷ rest)
unfolding read_quoted
read_quoted-end q d rest quote other = rw (quote, other) refl

-- A character that only a doubled quote can end a string with.
abbrev pub IsTypewritten : ℕ → Type 0
IsTypewritten c = (leb 0x2018 c && leb c 0x201b) ≡ false

read_quoted-double_quotes :
    (s : Text) (q d : ℕ) (rest : Text)
    → All IsTypewritten s
    → is_quote q ≡ true
    → is_quote d ≡ false
    → read_quoted (double_quotes s ++ q ∷ d ∷ rest) ≡ some (s, d ∷ rest)
unfolding double_quotes prefixed is_quote
read_quoted-double_quotes [] q d rest typed quote other = read_quoted-end q d rest quote other
read_quoted-double_quotes (c ∷ s) q d rest (this, typed) quote other =
    let later = read_quoted-double_quotes s q d rest typed quote other in
    elim (Bool-cases (c == b'\'')) [
      | inl here ↦
          let same = ==→eq c b'\'' here in
          rw (here, read_quoted-pair (double_quotes s ++ q ∷ d ∷ rest), later, same) refl
      | inr plain ↦
          rw (plain, read_quoted-plain c (double_quotes s) (d ∷ rest) q (ground arith), later) refl
    ]

-- Behind its opening quote the path in the script for an icon is read as that very path, whatever
-- typewriter quotes it holds, if it holds no typographic one.
pub icon_script-quoted :
    (path : Text)
    → All IsTypewritten path
    → (rest : Text) × (icon_script path ≡ icon_begin ++ rest)
      × (read_quoted rest ≡ some (path, icon_end))
unfolding icon_script is_quote
icon_script-quoted path typed = (
  double_quotes path ++ b'\'' ∷ icon_end,
  refl,
  read_quoted-double_quotes path b'\'' _ _ typed refl refl,
)
