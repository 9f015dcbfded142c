-- ===== src/Connections/Addresses.antt =====
-- Addresses as the list of connections shows them.
use proxy_for_windows_app.Base.{
  ℕ, zero, suc, ◌+◌, ◌*◌, ◌/◌, ◌%◌, ◌^◌, ◌<◌, ◌≡◌, ◌≢◌, refl, sym, ap, ◌∙◌, false, Option, none,
  some, List, [], ◌∷◌, ◌++◌, arith, ltb,
}
use mathlib.Core.List.{append_assoc}
use proxy_for_windows_app.Base.Text.{Text, split}
use proxy_for_windows_app.Base.Digits.{
  decimal, hex, hex_digit, hex_on, read_on, read_on-decimal, split-decimal, split-decimal_last,
}
use proxy_for_windows_app.Connections.{format_ip, format_ip6, groups}

-- The word whose bytes four numbers are, the lowest first.
word_of : List Text → Option ℕ
word_of (a ∷ b ∷ c ∷ d ∷ []) =
    some (read_on 0 a + read_on 0 b * 2 ^ 8 + read_on 0 c * 2 ^ 16 + read_on 0 d * 2 ^ 24)
word_of _ = none

-- How a reader takes an IPv4 address in dotted form.
unfoldable pub parse_ip : Text → Option ℕ
unfolding word_of
parse_ip s = word_of (split b'.' s)

split-format_ip :
    (raw : ℕ)
    → split b'.' (format_ip raw)
      ≡ decimal (raw % 2 ^ 8)
        ∷ decimal (raw / 2 ^ 8 % 2 ^ 8)
        ∷ decimal (raw / 2 ^ 16 % 2 ^ 8)
        ∷ decimal (raw / 2 ^ 24 % 2 ^ 8)
        ∷ []
unfolding format_ip
split-format_ip raw =
    let low : 46 < 48 = omega arith in
    let d = decimal (raw / 2 ^ 24 % 2 ^ 8) in
    let cd = decimal (raw / 2 ^ 16 % 2 ^ 8) ++ b'.' ∷ d in
    rw
      (
        split-decimal b'.' (raw % 2 ^ 8) (decimal (raw / 2 ^ 8 % 2 ^ 8) ++ b'.' ∷ cd) low,
        split-decimal b'.' (raw / 2 ^ 8 % 2 ^ 8) cd low,
        split-decimal b'.' (raw / 2 ^ 16 % 2 ^ 8) d low,
        split-decimal_last b'.' (raw / 2 ^ 24 % 2 ^ 8) low,
      )
      refl

-- An IPv4 address that is shown can be read back, so that no two are shown alike.
pub parse_ip-format_ip : (raw : ℕ) → raw < 2 ^ 32 → parse_ip (format_ip raw) ≡ some raw
unfolding parse_ip
parse_ip-format_ip raw word =
    rw
      (
        split-format_ip raw,
        read_on-decimal (raw % 2 ^ 8),
        read_on-decimal (raw / 2 ^ 8 % 2 ^ 8),
        read_on-decimal (raw / 2 ^ 16 % 2 ^ 8),
        read_on-decimal (raw / 2 ^ 24 % 2 ^ 8),
      )
      (ap some (omega arith))

hex_on-low : (fuel d : ℕ) → 0 < fuel → d < 16 → hex_on fuel d ≡ hex_digit d ∷ []
unfolding hex_on
hex_on-low zero d some_fuel low = ground arith
hex_on-low (suc fuel) d some_fuel low = ground arith

hex-low : (d : ℕ) → d < 16 → hex d ≡ hex_digit d ∷ []
unfolding hex
hex-low d low = hex_on-low (suc d) d (omega arith) low

hex-byte : (c d : ℕ) → c < 16 → c ≢ 0 → d < 16 → hex (c * 16 + d) ≡ hex_digit c ∷ hex_digit d ∷ []
unfolding hex hex_on
hex-byte c d high some_high low =
    let large : ltb (c * 16 + d) 16 ≡ false = ground arith in
    let tens : (c * 16 + d) / 16 ≡ c = omega arith in
    let ones : (c * 16 + d) % 16 ≡ d = omega arith in
    rw (large, tens, ones, hex_on-low (c * 16 + d) c (omega arith) high) refl

groups-same :
    (a b x y : ℕ) (rest : List ℕ)
    → hex a ++ hex b ≡ hex x ++ hex y
    → groups (a ∷ b ∷ rest) ≡ groups (x ∷ y ∷ rest)
unfolding groups
groups-same a b x y [] e = e
groups-same a b x y (r ∷ rest) e =
    let tail = b':' ∷ groups (r ∷ rest) in
    sym (append_assoc (hex a) (hex b) tail)
    ∙ ap (λ s. s ++ tail) e
    ∙ append_assoc (hex x) (hex y) tail

-- For half-bytes `c`, `d` and `e` of which `c` and `d` are not 0, two IPv6 addresses are shown alike whose
-- first two bytes are `c` alone and `d` before `e` in the one, `c` before `d` and `e` alone in the other,
-- and which agree otherwise.
pub format_ip6-collides :
    (c d e : ℕ) (rest : List ℕ)
    → c < 16
    → c ≢ 0
    → d < 16
    → d ≢ 0
    → e < 16
    → format_ip6 (c ∷ (d * 16 + e) ∷ rest) ≡ format_ip6 ((c * 16 + d) ∷ e ∷ rest)
unfolding format_ip6
format_ip6-collides c d e rest low some_c low_d some_d low_e =
    let one : hex c ++ hex (d * 16 + e) ≡ hex_digit c ∷ hex_digit d ∷ hex_digit e ∷ [] =
      rw (hex-low c low, hex-byte d e low_d some_d low_e) refl in
    let other : hex (c * 16 + d) ++ hex e ≡ hex_digit c ∷ hex_digit d ∷ hex_digit e ∷ [] =
      rw (hex-byte c d low some_c low_d, hex-low e low_e) refl in
    ap (λ s. b'[' ∷ (s ++ b']' ∷ []))
      (groups-same c (d * 16 + e) (c * 16 + d) e rest (one ∙ sym other))
