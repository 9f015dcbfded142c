-- ===== src/Dialogs/Unicode.antt =====
-- Paths that PowerShell writes as UTF-16, and their decoding.
use proxy_for_windows_app.Base.{
  ℕ, ◌+◌, ◌-◌, ◌*◌, ◌/◌, ◌%◌, ◌<◌, ◌≤◌, ◌≡◌, refl, ◌⊎◌, inl, inr, false, Option, some, List, [],
  ◌∷◌, ltb, if◌then◌else◌, ok, All, arith, is_empty, Bool-cases,
}
use proxy_for_windows_app.Base.Text.{Text, trim_space}
use proxy_for_windows_app.Dialogs.{
  words_of, decode_utf16, decoded_words, decoded_bytes, decode_powershell,
}

-- A code point that is no surrogate.
abbrev pub IsScalar : ℕ → Type 0
IsScalar c = ((c < 0xd800) ⊎ (0xe000 ≤ c)) × (c < 0x110000)

-- UTF-16, as the standard defines it, and its bytes, the low one of a word first.
unfoldable pub utf16_words : Text → List ℕ
utf16_words [] = []
utf16_words (c ∷ s) =
    let rest = utf16_words s in
    if ltb c 0x10000
    then c ∷ rest
    else (0xd800 + (c - 0x10000) / 0x400) ∷ (0xdc00 + (c - 0x10000) % 0x400) ∷ rest

unfoldable pub bytes_of : List ℕ → List ℕ
bytes_of [] = []
bytes_of (w ∷ ws) = w % 256 ∷ w / 256 ∷ bytes_of ws

words_of-bytes_of : (ws : List ℕ) → words_of (bytes_of ws) ≡ some ws
unfolding words_of bytes_of
words_of-bytes_of [] = refl
words_of-bytes_of (w ∷ ws) =
    let word : w % 256 + w / 256 * 256 ≡ w = omega arith in rw (words_of-bytes_of ws, word) refl

decode-plain :
    (c : ℕ) (ws : List ℕ)
    → (c < 0xd800) ⊎ (0xe000 ≤ c)
    → decode_utf16 (c ∷ ws) ≡ c ∷ decode_utf16 ws
unfolding decode_utf16
decode-plain c [] plain = ground arith
decode-plain c (v ∷ ws) plain = ground arith

decode-pair :
    (c : ℕ) (ws : List ℕ)
    → 0x10000 ≤ c
    → c < 0x110000
    → decode_utf16 ((0xd800 + (c - 0x10000) / 0x400) ∷ (0xdc00 + (c - 0x10000) % 0x400) ∷ ws)
      ≡ c ∷ decode_utf16 ws
unfolding decode_utf16
decode-pair c ws least most = ground arith

-- Decoding gives back every text of scalar values.
decode_utf16-utf16_words : (s : Text) → All IsScalar s → decode_utf16 (utf16_words s) ≡ s
unfolding utf16_words decode_utf16
decode_utf16-utf16_words [] scalar = refl
decode_utf16-utf16_words (c ∷ s) ((plain, most), others) = elim (Bool-cases (ltb c 0x10000)) [
  | inl short ↦
      rw (short, decode-plain c (utf16_words s) plain, decode_utf16-utf16_words s others) refl
  | inr long ↦
      rw
        (long, decode-pair c (utf16_words s) (ground arith) most, decode_utf16-utf16_words s others)
        refl
]

-- A path of scalar values that the script prints as Base64 of its UTF-16 bytes is decoded to that path,
-- without the white space at its ends.
pub decode_powershell-utf16 :
    (base64 : Text → Option (List ℕ)) (raw path : Text)
    → All IsScalar path
    → is_empty (trim_space raw) ≡ false
    → base64 (trim_space raw) ≡ some (bytes_of (utf16_words path))
    → decode_powershell base64 raw ≡ ok (trim_space path)
unfolding decode_powershell decoded_bytes decoded_words
decode_powershell-utf16 base64 raw path scalar given encoded =
    rw (given, encoded, words_of-bytes_of (utf16_words path), decode_utf16-utf16_words path scalar)
      refl
