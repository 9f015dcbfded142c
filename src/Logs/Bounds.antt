-- ===== src/Logs/Bounds.antt =====
-- How much of a log is shown.
use proxy_for_windows_app.Base.{
  ℕ, zero, suc, ◌-◌, ◌*◌, ◌≤◌, ◌<◌, ◌≡◌, refl, sym, ap, ◌∙◌, inl, inr, true, Option, some, List, [],
  ◌∷◌, ◌++◌, ltb, length, drop, arith, Bool-cases, Option-cases, All,
}
use proxy_for_windows_app.Base.Text.{Text, trim_space, split}
use proxy_for_windows_app.Base.Lines.{
  IsFree, join, split-cons, join-split, split-IsFree, split-join, join-drop, drop-IsFree,
}
use proxy_for_windows_app.Logs.{
  ReadFile, missing, unreadable, content, body, max_lines, last_lines, handle_log_tail, max_bytes,
  last_bytes, shown_of, handle_shortcut_log,
}

length-drop {ℓ} : {A : Type ℓ} (n : ℕ) (xs : List A) → length (drop n xs) ≡ length xs - n
length-drop zero xs = omega arith
length-drop (suc n) [] = omega arith
length-drop (suc n) (x ∷ xs) = omega (arith, length-drop n xs)

drop-front {ℓ} : {A : Type ℓ} (n : ℕ) (xs : List A) → (front : List A) × (xs ≡ front ++ drop n xs)
drop-front zero xs = ([], refl)
drop-front (suc n) [] = ([], refl)
drop-front (suc n) (x ∷ xs) = let (front, e) = drop-front n xs in (x ∷ front, ap (◌∷◌ x) e)

last_lines-drop : (lines : List Text) → last_lines lines ≡ drop (length lines - max_lines) lines
unfolding last_lines
last_lines-drop lines = elim (Bool-cases (ltb max_lines (length lines))) [
  | inl long ↦ rw long refl
  | inr short ↦ let fits : length lines - max_lines ≡ 0 = ground arith in rw (short, fits) refl
]

last_bytes-drop : (s : Text) → last_bytes s ≡ drop (length s - max_bytes) s
unfolding last_bytes
last_bytes-drop s = elim (Bool-cases (ltb max_bytes (length s))) [
  | inl long ↦ rw long refl
  | inr short ↦ let fits : length s - max_bytes ≡ 0 = ground arith in rw (short, fits) refl
]

split-some_join :
    (ts : List Text) → All (IsFree b'\n') ts → 0 < length ts → split b'\n' (join b'\n' ts) ≡ ts
split-some_join [] free some_left = ground arith
split-some_join (t ∷ ts) free some_left = split-join b'\n' t ts free

some_line : (s : Text) → 0 < length (split b'\n' s)
some_line s = let (t, ts, e) = split-cons b'\n' s in rw e (omega arith)

-- Of a log that can be read `handleLogTail` shows an ending of its trimmed text, which has its last 80
-- lines, or every line of one with fewer.
pub handle_log_tail-lines :
    (s : Text)
    → let lines = split b'\n' (trim_space s) in
      (shown : Text) × (handle_log_tail true (content s) ≡ body shown)
      × ((front : Text) × (trim_space s ≡ front ++ shown))
      × (split b'\n' shown ≡ drop (length lines - 80) lines)
      × (length (split b'\n' shown) ≤ 80)
unfolding handle_log_tail
handle_log_tail-lines s =
    let lines = split b'\n' (trim_space s) in
    let n = length lines - 80 in
    let shown = join b'\n' (drop n lines) in
    let (front, ends) = join-drop b'\n' n lines in
    let some_left : 0 < length (drop n lines) =
      omega (arith, length-drop n lines, some_line (trim_space s)) in
    let again =
      split-some_join (drop n lines) (drop-IsFree b'\n' n lines (split-IsFree b'\n' (trim_space s)))
        some_left in
    let few : length (split b'\n' shown) ≤ 80 = rw again (omega (arith, length-drop n lines)) in
    (
      shown,
      ap (λ ts. body (join b'\n' ts)) (last_lines-drop lines),
      (front, sym (join-split b'\n' (trim_space s)) ∙ ends),
      again,
      few,
    )

shown_of-ending :
    (file : ReadFile) (shown : Text)
    → shown_of file ≡ body shown
    → (s : Text) × (front : Text) × (file ≡ content s)
      × (s ≡ front ++ shown)
      × (length shown ≤ 64 * 1024)
unfolding shown_of
shown_of-ending missing shown e = ground arith
shown_of-ending unreadable shown e = ground arith
shown_of-ending (content s) shown e =
    let (front, ends) = drop-front (length s - max_bytes) s in
    let same : shown ≡ drop (length s - max_bytes) s = ground (arith, last_bytes-drop s, e) in
    (s, front, refl, rw same ends, rw same (omega (arith, length-drop (length s - max_bytes) s)))

-- What `handleShortcutLog` shows is an ending of at most 65536 bytes of the file whose path belongs to the
-- trimmed ID.
pub handle_shortcut_log-ending :
    (log_path : Text → Option Text) (read_file : Text → ReadFile) (raw_id shown : Text)
    → handle_shortcut_log log_path read_file raw_id ≡ body shown
    → (path : Text) × (s : Text) × (front : Text) × (log_path (trim_space raw_id) ≡ some path)
      × (read_file path ≡ content s)
      × (s ≡ front ++ shown)
      × (length shown ≤ 64 * 1024)
unfolding handle_shortcut_log
handle_shortcut_log-ending log_path read_file raw_id shown e =
    elim (Option-cases (log_path (trim_space raw_id))) [
      | inl none_given ↦ absurd (ground arith)
      | inr (path, given) ↦
          let (s, front, is_content, ends, few) =
            shown_of-ending (read_file path) shown (ground arith) in
          (path, s, front, given, is_content, ends, few)
    ]
