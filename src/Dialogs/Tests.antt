-- ===== src/Dialogs/Tests.antt =====
-- Answers of dialogs at concrete outputs.
use proxy_for_windows_app.Base.{
  ℕ, ◌≡◌, refl, ap, sym, inl, inr, false, Option, some, List, [], ◌∷◌, ok, err, arith, is_empty,
}
use proxy_for_windows_app.Base.Text.{Text, codes, trim_space, is_space}
use proxy_for_windows_app.Dialogs.{
  decode_utf16, decode_powershell, choose_backup_path, choose_executable, cancelled,
}
use proxy_for_windows_app.Dialogs.Unicode.{utf16_words, bytes_of, decode_powershell-utf16}

-- A letter, and U+1F600.
abbrev path : Text
path = 0x42 ∷ 0x1f600 ∷ []

-- What `base64` gives for the output `x`.
abbrev base64 : Text → Option (List ℕ)
base64 raw = some (0x42 ∷ 0 ∷ 0x3d ∷ 0xd8 ∷ 0 ∷ 0xde ∷ [])

test_bytes : bytes_of (utf16_words path) ≡ 0x42 ∷ 0 ∷ 0x3d ∷ 0xd8 ∷ 0 ∷ 0xde ∷ []
unfolding bytes_of utf16_words
test_bytes = refl

test_lone : decode_utf16 (0xd800 ∷ 0x41 ∷ []) ≡ 0xfffd ∷ 0x41 ∷ []
unfolding decode_utf16
test_lone = refl

test_cancelled : choose_backup_path base64 (some (codes "\n")) ≡ err cancelled
unfolding choose_backup_path decode_powershell trim_space is_space
test_cancelled = refl

test_executable : choose_executable (some (codes " a.exe\n")) ≡ ok (codes "a.exe")
unfolding choose_executable trim_space is_space
test_executable = refl

given : is_empty (trim_space (codes "x")) ≡ false
unfolding trim_space is_space
given = refl

decode_powershell-utf16_example : decode_powershell base64 (codes "x") ≡ ok (trim_space path)
decode_powershell-utf16_example =
    decode_powershell-utf16 base64 (codes "x") path
      ((inl (omega arith), omega arith), ((inr (omega arith), omega arith), tt)) given
      (ap some (sym test_bytes))
