-- ===== src/Base/Digits.antt =====
-- Numbers as `fmt` prints them, and how they are read back.
use proxy_for_windows_app.Base.Tests.{ltb, if◌then◌else◌, Bool-cases}
use proxy_for_windows_app.Base.Lists.{All, is_empty}
use proxy_for_windows_app.Base.Text.{Text, split, on_head}
use Prim.Native.Nat.{ℕ, zero, suc, ◌+◌, ◌-◌, ◌*◌, ◌/◌, ◌%◌, ◌<◌, ◌≤◌}
use mathlib.Core.Path.{◌≡◌, refl}
use mathlib.Core.Logic.{inl, inr}
use mathlib.Core.Bool.{false}
use mathlib.Core.List.{[], ◌∷◌, ◌++◌}
use native.Mathlib.Omega.{arith}

-- `%d` for a number that is not negative, with fuel for its digits.
unfoldable pub decimal_on : ℕ → ℕ → Text
decimal_on zero n = []
decimal_on (suc fuel) n =
    let rest = decimal_on fuel (n / 10) in
    if ltb n 10 then (48 + n) ∷ [] else rest ++ (48 + n % 10) ∷ []

unfoldable pub decimal : ℕ → Text
unfolding decimal_on
decimal n = decimal_on (suc n) n

-- `%x`
abbrev pub hex_digit : ℕ → ℕ
hex_digit d = if ltb d 10 then 48 + d else 87 + d

unfoldable pub hex_on : ℕ → ℕ → Text
hex_on zero n = []
hex_on (suc fuel) n =
    let rest = hex_on fuel (n / 16) in
    if ltb n 16 then hex_digit n ∷ [] else rest ++ hex_digit (n % 16) ∷ []

unfoldable pub hex : ℕ → Text
unfolding hex_on
hex n = hex_on (suc n) n

test_hex : hex 0xa7 ≡ b'a' ∷ b'7' ∷ []
unfolding hex
test_hex = refl

-- The number that decimal digits stand for, behind those that make `acc`.
abbrev pub read_on : ℕ → Text → ℕ
read_on acc [] = acc
read_on acc (c ∷ s) = read_on (acc * 10 + (c - 48)) s

read_on-append : (acc c : ℕ) (s : Text) → read_on acc (s ++ c ∷ []) ≡ read_on acc s * 10 + (c - 48)
read_on-append acc c [] = refl
read_on-append acc c (d ∷ s) = read_on-append (acc * 10 + (d - 48)) c s

read_on-decimal_on : (fuel n : ℕ) → n < fuel → read_on 0 (decimal_on fuel n) ≡ n
unfolding decimal_on
read_on-decimal_on zero n enough = ground arith
read_on-decimal_on (suc fuel) n enough = elim (Bool-cases (ltb n 10)) [
  | inl small ↦ rw small (omega arith)
  | inr large ↦ rw (large, read_on-append) (ground (arith, read_on-decimal_on fuel (n / 10)))
]

-- A number is read back from its decimal digits.
pub read_on-decimal : (n : ℕ) → read_on 0 (decimal n) ≡ n
unfolding decimal
read_on-decimal n = read_on-decimal_on (suc n) n (omega arith)

-- A character that is no part of a number.
abbrev pub IsDigit : ℕ → Type 0
IsDigit c = (48 ≤ c) × (c < 58)

one_more : (xs : Text) (y : ℕ) → All IsDigit xs → IsDigit y → All IsDigit (xs ++ y ∷ [])
one_more [] y h here = (here, tt)
one_more (x ∷ xs) y (first, h) here = (first, one_more xs y h here)

decimal_on-digits : (fuel n : ℕ) → All IsDigit (decimal_on fuel n)
unfolding decimal_on
decimal_on-digits zero n = tt
decimal_on-digits (suc fuel) n = elim (Bool-cases (ltb n 10)) [
  | inl small ↦ rw small ((omega arith, ground arith), tt)
  | inr large ↦ rw large (
      one_more (decimal_on fuel (n / 10)) (48 + n % 10) (decimal_on-digits fuel (n / 10))
        (omega arith, omega arith))
]

split-digits :
    (sep : ℕ) (s rest : Text)
    → All IsDigit s
    → sep < 48
    → split sep (s ++ sep ∷ rest) ≡ s ∷ split sep rest
unfolding split on_head
split-digits sep [] rest digits low = ground arith
split-digits sep (c ∷ s) rest ((least, most), digits) low =
    ground (arith, split-digits sep s rest digits low)

split-last : (sep : ℕ) (s : Text) → All IsDigit s → sep < 48 → split sep s ≡ s ∷ []
unfolding split on_head
split-last sep [] digits low = refl
split-last sep (c ∷ s) ((least, most), digits) low = ground (arith, split-last sep s digits low)

-- A number before a separator is a part of its own.
pub split-decimal :
    (sep n : ℕ) (rest : Text)
    → sep < 48
    → split sep (decimal n ++ sep ∷ rest) ≡ decimal n ∷ split sep rest
unfolding decimal
split-decimal sep n rest low = split-digits sep (decimal n) rest (decimal_on-digits (suc n) n) low

pub split-decimal_last : (sep n : ℕ) → sep < 48 → split sep (decimal n) ≡ decimal n ∷ []
unfolding decimal
split-decimal_last sep n low = split-last sep (decimal n) (decimal_on-digits (suc n) n) low

pub decimal-digits : (n : ℕ) → All IsDigit (decimal n)
unfolding decimal
decimal-digits n = decimal_on-digits (suc n) n

is_empty-append : (xs : Text) (y : ℕ) → is_empty (xs ++ y ∷ []) ≡ false
is_empty-append [] y = refl
is_empty-append (x ∷ xs) y = refl

pub is_empty-decimal : (n : ℕ) → is_empty (decimal n) ≡ false
unfolding decimal decimal_on
is_empty-decimal n = elim (Bool-cases (ltb n 10)) [
  | inl small ↦ rw small refl
  | inr large ↦ rw (large, is_empty-append (decimal_on n (n / 10)) (48 + n % 10)) refl
]
