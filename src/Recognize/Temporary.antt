-- ===== src/Recognize/Temporary.antt =====
-- The temporary file of `handleRecognize` in netmonitor-gui/main.go.
use mathlib.Core.Logic.{ite}
use proxy_for_windows_app.Base.{
  ◌≡◌, refl, sym, Bool, true, false, Option, none, some, Bool-cases, Option-cases, inl, inr, arith,
}
use proxy_for_windows_app.Base.Text.{Text, same, codes, Text-discrete}
use proxy_for_windows_app.Base.FilePath.{ext}
use proxy_for_windows_app.Base.Dict.{lookup, erase, lookup-insert, lookup-erase}
use proxy_for_windows_app.Apps.{NameFunctions}
use proxy_for_windows_app.Recognize.{
  Folder, create_temp, close, remove, Upload, recognize_shortcut, recognize_file, handle_recognize,
}

-- A folder is, for every name, as before.
abbrev pub SameFiles : Folder → Folder → Type 0
SameFiles before after =
    (name : Text) → lookup Text-discrete name after ≡ lookup Text-discrete name before

-- `os.CreateTemp` picks a name that no file has.
abbrev pub IsFresh : Option Text → Folder → Type 0
IsFresh chosen temps = (temp : Text) → chosen ≡ some temp → lookup Text-discrete temp temps ≡ none

lookup-close : (temp : Text) (d : Folder) → lookup Text-discrete temp (close temp d) ≡ some false
unfolding close
lookup-close temp d = ground (arith, lookup-insert Text-discrete temp temp false d)

remove-closed :
    (temp : Text) (d : Folder)
    → remove temp (close temp d) ≡ erase Text-discrete temp (close temp d)
unfolding remove
remove-closed temp d = rw (remove, lookup-close temp d) refl

ite_absent :
    {P : Type 0} (d : Dec P) (a b x : Option Bool)
    → (P → x ≡ none)
    → ite d none (ite d a (ite d b x)) ≡ x
ite_absent (yes p) a b x absent = sym (absent p)
ite_absent (no n) a b x absent = refl

-- A file that is made, closed and removed leaves the folder as it was.
removed_after_close :
    (temp : Text) (temps : Folder)
    → lookup Text-discrete temp temps ≡ none
    → SameFiles temps (remove temp (close temp (create_temp temp temps)))
unfolding close create_temp
removed_after_close temp temps fresh name =
    rw
      (
        remove-closed temp (create_temp temp temps),
        lookup-erase Text-discrete name temp (close temp (create_temp temp temps)),
        lookup-insert Text-discrete name temp false (create_temp temp temps),
        lookup-insert Text-discrete name temp true temps,
      )
      (ite_absent (Text-discrete name temp) (some false) (some true)
        (lookup Text-discrete name temps) (λ e. rw e fresh))

module _ (names : NameFunctions) (resolve : Text → Option Text) where
  recognize_shortcut-SameFiles :
      (upload : Upload) (filename : Text) (temps : Folder)
      → IsFresh upload.temp_file temps
      → SameFiles temps (recognize_shortcut names resolve upload filename temps).1
  unfolding recognize_shortcut
  recognize_shortcut-SameFiles upload filename temps fresh = elim (Option-cases upload.temp_file) [
    | inl missing ↦ rw missing (λ name. refl)
    | inr (temp, found) ↦ elim (Bool-cases upload.copied) [
      | inl done ↦ rw (found, done) (removed_after_close temp temps (fresh temp found))
      | inr failed ↦ rw (found, failed) (removed_after_close temp temps (fresh temp found))
    ]
  ]

  recognize_file-SameFiles :
      (upload : Upload) (filename : Text) (temps : Folder)
      → IsFresh upload.temp_file temps
      → SameFiles temps (recognize_file names resolve upload filename temps).1
  unfolding recognize_file
  recognize_file-SameFiles upload filename temps fresh =
      elim (Bool-cases (same (names.to_lower (ext filename)) (codes ".exe"))) [
        | inl exe ↦ rw exe (λ name. refl)
        | inr other ↦ elim (Bool-cases (same (names.to_lower (ext filename)) (codes ".lnk"))) [
          | inl lnk ↦ rw (other, lnk) (recognize_shortcut-SameFiles upload filename temps fresh)
          | inr neither ↦ rw (other, neither) (λ name. refl)
        ]
      ]

  -- A request to recognise a file leaves the folder of temporary files as it was, on every branch, if the
  -- name of its temporary file is new.
  pub handle_recognize-SameFiles :
      (upload : Upload) (temps : Folder)
      → IsFresh upload.temp_file temps
      → SameFiles temps (handle_recognize names resolve upload temps).1
  unfolding handle_recognize
  handle_recognize-SameFiles upload temps fresh = elim (Bool-cases upload.is_post) [
    | inr got ↦ rw got (λ name. refl)
    | inl posted ↦ elim (Bool-cases upload.has_form) [
      | inr bad ↦ rw (posted, bad) (λ name. refl)
      | inl form ↦ elim (Option-cases upload.filename) [
        | inl missing ↦ rw (posted, form, missing) (λ name. refl)
        | inr (filename, found) ↦
            rw (posted, form, found) (recognize_file-SameFiles upload filename temps fresh)
      ]
    ]
  ]
