-- ===== src/Dialogs.antt =====
-- The answers of the file dialogs in netmonitor-gui/main.go: `decodePowerShellUTF16Base64`,
-- `chooseBackupPath` and `chooseExecutable`. `base64` is `base64.StdEncoding.DecodeString`.
pub mod Unicode
mod Tests
use proxy_for_windows_app.Base.{
  ℕ, ◌+◌, ◌-◌, ◌*◌, ◌/◌, ◌%◌, ◌<◌, Bool, true, false, not, ◌&&◌, ◌||◌, Option, none, some, List, [],
  ◌∷◌, ◌++◌, ltb, leb, if◌then◌else◌, Result, ok, err, is_empty,
}
use proxy_for_windows_app.Base.Text.{Text, trim_space}

pub data DialogError : Type 0 where
  not_base64 odd_length script_failed cancelled : DialogError

-- The loop over the bytes, two for a word, the low one first; `none` is an odd number of bytes.
unfoldable pub words_of : List ℕ → Option (List ℕ)
words_of [] = some []
words_of (low ∷ []) = none
words_of (low ∷ high ∷ rest) = elim (words_of rest) [
  | none ↦ none
  | some ws ↦ some ((low + high * 256) ∷ ws)
]

abbrev pub is_low_surrogate : ℕ → Bool
is_low_surrogate w = leb 0xdc00 w && ltb w 0xe000

abbrev pub is_high_surrogate : ℕ → Bool
is_high_surrogate w = leb 0xd800 w && ltb w 0xdc00

-- `utf16.Decode`: a surrogate that is not one of a pair is replaced by U+FFFD.
unfoldable pub decode_utf16 : List ℕ → Text
decode_utf16 [] = []
decode_utf16 (w ∷ []) = if is_high_surrogate w || is_low_surrogate w then 0xfffd ∷ [] else w ∷ []
decode_utf16 (w ∷ v ∷ ws) =
    let behind_pair = decode_utf16 ws in
    let behind = decode_utf16 (v ∷ ws) in
    if is_high_surrogate w && is_low_surrogate v
    then (0x10000 + (w - 0xd800) * 0x400 + (v - 0xdc00)) ∷ behind_pair
    else if is_high_surrogate w || is_low_surrogate w
    then 0xfffd ∷ behind
    else w ∷ behind

decoded_words : Option (List ℕ) → Result DialogError Text
unfolding decode_utf16
decoded_words none = err odd_length
decoded_words (some ws) = ok (trim_space (decode_utf16 ws))

decoded_bytes : Option (List ℕ) → Result DialogError Text
unfolding decoded_words words_of
decoded_bytes none = err not_base64
decoded_bytes (some bytes) = decoded_words (words_of bytes)

-- `decodePowerShellUTF16Base64`
unfoldable pub decode_powershell : (Text → Option (List ℕ)) → Text → Result DialogError Text
unfolding decoded_bytes
decode_powershell base64 raw =
    if is_empty (trim_space raw) then ok [] else decoded_bytes (base64 (trim_space raw))

chosen : Result DialogError Text → Result DialogError Text
chosen (err e) = err e
chosen (ok []) = err cancelled
chosen (ok (c ∷ path)) = ok (c ∷ path)

-- `chooseBackupPath`, given the output of the script.
unfoldable pub choose_backup_path : (Text → Option (List ℕ)) → Option Text → Result DialogError Text
unfolding chosen decode_powershell
choose_backup_path base64 none = err script_failed
choose_backup_path base64 (some out) = chosen (decode_powershell base64 (trim_space out))

-- `chooseExecutable`, given the output of the script.
unfoldable pub choose_executable : Option Text → Result DialogError Text
unfolding chosen
choose_executable none = err script_failed
choose_executable (some out) = chosen (ok (trim_space out))
