-- ===== src/Scripts/Pids.antt =====
-- The process IDs that a script prints, one on a line.
use mathlib.Core.List.{append_assoc, append-nil}
use proxy_for_windows_app.Base.{
  ℕ, ◌≡◌, refl, sym, ap, ◌∙◌, false, Option, some, List, [], ◌∷◌, ◌++◌, arith, All, is_empty, map,
  ok,
}
use proxy_for_windows_app.Base.Text.{Text, is_space}
use proxy_for_windows_app.Base.Digits.{decimal, IsDigit, decimal-digits, is_empty-decimal}
use proxy_for_windows_app.Scripts.{fields_on, fields, scanned, pids_of}

IsDigit-space : (c : ℕ) → IsDigit c → is_space c ≡ false
unfolding is_space
IsDigit-space c (least, most) = ground arith

-- What a script prints for these processes.
unfoldable pub printed : List ℕ → Text
printed [] = []
printed (pid ∷ pids) = decimal pid ++ b'\r' ∷ b'\n' ∷ printed pids

-- A field ends at a space.
fields_on-digits :
    (field t rest : Text)
    → All IsDigit t
    → is_empty (field ++ t) ≡ false
    → fields_on field (t ++ b'\r' ∷ b'\n' ∷ rest) ≡ (field ++ t) ∷ fields_on [] rest
unfolding fields_on is_space
fields_on-digits [] [] rest digits given = ground arith
fields_on-digits (x ∷ field) [] rest digits given =
    ap (λ s. s ∷ fields_on [] rest) (sym (append-nil (x ∷ field)))
fields_on-digits field (c ∷ t) rest (here, digits) given =
    let moved = append_assoc field (c ∷ []) t in
    rw (IsDigit-space c here) (
      fields_on-digits (field ++ c ∷ []) t rest digits (ap is_empty moved ∙ given)
      ∙ ap (λ s. s ∷ fields_on [] rest) moved)

fields_on-printed : (pids : List ℕ) → fields_on [] (printed pids) ≡ map decimal pids
unfolding printed fields_on
fields_on-printed [] = refl
fields_on-printed (pid ∷ pids) =
    fields_on-digits [] (decimal pid) (printed pids) (decimal-digits pid) (is_empty-decimal pid)
    ∙ ap (◌∷◌ (decimal pid)) (fields_on-printed pids)

scanned-map :
    (scan : Text → Option ℕ) (pids : List ℕ)
    → All (λ n. scan (decimal n) ≡ some n) pids
    → scanned scan (map decimal pids) ≡ pids
unfolding scanned
scanned-map scan [] reads = refl
scanned-map scan (pid ∷ pids) (here, reads) = ground (arith, here, scanned-map scan pids reads)

-- The process IDs that a script prints, one on a line, are read back in their order, if `Sscan` reads each
-- from its digits.
pub pids_of-printed :
    (scan : Text → Option ℕ) (pids : List ℕ)
    → All (λ n. scan (decimal n) ≡ some n) pids
    → pids_of scan (some (printed pids)) ≡ ok pids
unfolding pids_of fields
pids_of-printed scan pids reads =
    ap ok (ap (scanned scan) (fields_on-printed pids) ∙ scanned-map scan pids reads)
