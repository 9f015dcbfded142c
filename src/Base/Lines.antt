-- ===== src/Base/Lines.antt =====
-- Texts that are split at a separator and joined again.
use mathlib.Core.Path.{◌≡◌, refl, sym, ap, ◌∙◌}
use mathlib.Core.Logic.{◌≢◌, inl, inr}
use mathlib.Core.List.{List, [], ◌∷◌, ◌++◌, append_assoc, append-nil}
use Prim.Native.Nat.{ℕ, zero, suc}
use native.Mathlib.Omega.{arith}
use proxy_for_windows_app.Base.Tests.{◌==◌, Bool-cases, ==→eq}
use proxy_for_windows_app.Base.Lists.{All, drop}
use proxy_for_windows_app.Base.Text.{Text, split, on_head}

-- `strings.Join` with a separator of one character.
unfoldable pub join : ℕ → List Text → Text
join sep [] = []
join sep (t ∷ []) = t
join sep (t ∷ u ∷ ts) = t ++ sep ∷ join sep (u ∷ ts)

-- No character is the separator.
abbrev pub IsFree : ℕ → Text → Type 0
IsFree sep s = All (λ c. c ≢ sep) s

pub split-cons : (sep : ℕ) (s : Text) → (t : Text) × (ts : List Text) × (split sep s ≡ t ∷ ts)
unfolding split on_head
split-cons sep [] = ([], [], refl)
split-cons sep (c ∷ s) =
    let (t, ts, e) = split-cons sep s in
    elim (Bool-cases (c == sep)) [
      | inl hit ↦ ([], split sep s, rw hit refl)
      | inr miss ↦ (c ∷ t, ts, rw (miss, e) refl)
    ]

join-cons :
    (sep c : ℕ) (t : Text) (ts : List Text) → join sep ((c ∷ t) ∷ ts) ≡ c ∷ join sep (t ∷ ts)
unfolding join
join-cons sep c t [] = refl
join-cons sep c t (u ∷ ts) = refl

join-empty :
    (sep : ℕ) (t : Text) (ts : List Text) → join sep ([] ∷ t ∷ ts) ≡ sep ∷ join sep (t ∷ ts)
unfolding join
join-empty sep t ts = refl

-- A text is what its parts join to.
pub join-split : (sep : ℕ) (s : Text) → join sep (split sep s) ≡ s
unfolding split on_head join
join-split sep [] = refl
join-split sep (c ∷ s) =
    let (t, ts, e) = split-cons sep s in
    let rest = join-split sep s in
    elim (Bool-cases (c == sep)) [
      | inl hit ↦
          let here = ==→eq c sep hit in rw (hit, e, join-empty sep t ts, ← e, rest, here) refl
      | inr miss ↦ rw (miss, e, join-cons sep c t ts, ← e, rest) refl
    ]

on_head-IsFree :
    (sep c : ℕ) (ts : List Text)
    → c ≢ sep
    → All (IsFree sep) ts
    → All (IsFree sep) (on_head (◌∷◌ c) ts)
unfolding on_head
on_head-IsFree sep c [] other free = ((other, tt), tt)
on_head-IsFree sep c (t ∷ ts) other (first, free) = ((other, first), free)

pub split-IsFree : (sep : ℕ) (s : Text) → All (IsFree sep) (split sep s)
unfolding split on_head
split-IsFree sep [] = (tt, tt)
split-IsFree sep (c ∷ s) = elim (Bool-cases (c == sep)) [
  | inl hit ↦ rw hit (tt, split-IsFree sep s)
  | inr miss ↦
      rw miss (on_head-IsFree sep c (split sep s) (λ same. ground arith) (split-IsFree sep s))
]

split-free : (sep : ℕ) (t : Text) → IsFree sep t → split sep t ≡ t ∷ []
unfolding split on_head
split-free sep [] free = refl
split-free sep (c ∷ t) (this, free) = ground (arith, split-free sep t free)

split-before :
    (sep : ℕ) (t rest : Text) → IsFree sep t → split sep (t ++ sep ∷ rest) ≡ t ∷ split sep rest
unfolding split on_head
split-before sep [] rest free = ground arith
split-before sep (c ∷ t) rest (this, free) = ground (arith, split-before sep t rest free)

-- Parts without the separator are found again in what they join to.
pub split-join :
    (sep : ℕ) (t : Text) (ts : List Text)
    → All (IsFree sep) (t ∷ ts)
    → split sep (join sep (t ∷ ts)) ≡ t ∷ ts
unfolding join
split-join sep t [] (free, _) = split-free sep t free
split-join sep t (u ∷ ts) (free, others) =
    split-before sep t (join sep (u ∷ ts)) free ∙ ap (◌∷◌ t) (split-join sep u ts others)

-- The last parts join to an ending of the text.
pub join-drop :
    (sep : ℕ) (n : ℕ) (ts : List Text)
    → (front : Text) × (join sep ts ≡ front ++ join sep (drop n ts))
unfolding join
join-drop sep zero ts = ([], refl)
join-drop sep (suc n) [] = ([], refl)
join-drop sep (suc zero) (t ∷ []) = (t, sym (append-nil t))
join-drop sep (suc (suc n)) (t ∷ []) = (t, sym (append-nil t))
join-drop sep (suc n) (t ∷ u ∷ ts) =
    let (front, e) = join-drop sep n (u ∷ ts) in
    (
      t ++ sep ∷ front,
      ap (λ s. t ++ sep ∷ s) e ∙ sym (append_assoc t (sep ∷ front) (join sep (drop n (u ∷ ts)))),
    )

pub drop-IsFree : (sep n : ℕ) (ts : List Text) → All (IsFree sep) ts → All (IsFree sep) (drop n ts)
drop-IsFree sep zero ts free = free
drop-IsFree sep (suc n) [] free = tt
drop-IsFree sep (suc n) (t ∷ ts) (_, free) = drop-IsFree sep n ts free
