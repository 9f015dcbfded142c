-- ===== src/Backup/Exported.antt =====
-- Which entries a successful export has written.
use proxy_for_windows_app.Base.{
  ℕ, ◌≡◌, refl, sym, ap, ◌∙◌, inl, inr, Bool, true, false, Option, none, some, List, [], ◌∷◌, ◌++◌,
  map, Result, ok, err, if◌then◌else◌, arith, Option-cases,
}
use proxy_for_windows_app.Base.Text.{Text}
use proxy_for_windows_app.Config.{ProxyConfig}
use proxy_for_windows_app.Backup.{ZipEntry, should_skip}
use proxy_for_windows_app.Backup.Export.{
  Visit, ExportHost, ExportError, config_name, entry_of, entry_name, copied, visited_at, visited,
  joined, walked, archived, with_config, closed, write_backup_archive, Target, archive, Files,
  replaced, written_to, export_backup,
}

-- The files that belong to a backup: those of the walk that are not skipped, with their contents.
kept_at : Bool → Option Text → Option (List ℕ) → List (Text × List ℕ)
kept_at true rel content = []
kept_at false none content = []
kept_at false (some rel) none = []
kept_at false (some rel) (some content) = if should_skip rel then [] else (rel, content) ∷ []

unfoldable pub kept : List Visit → List (Text × List ℕ)
unfolding kept_at
kept [] = []
kept (v ∷ vs) = kept_at v.is_dir v.rel v.content ++ kept vs

kept_below : Bool → Option Text → (Text → List Visit) → List (Text × List ℕ)
unfolding kept
kept_below missing none walk = []
kept_below true (some root) walk = []
kept_below false (some root) walk = kept (walk root)

unfoldable pub exported : ExportHost → List (Text × List ℕ)
unfolding kept_below
exported x = kept_below x.root_missing x.profiles_root x.walk

module _ (x : ExportHost) where
  unfoldable pub file_entry : Text × List ℕ → ZipEntry
  file_entry (rel, content) = entry_of (entry_name x rel) content

  visited-kept :
      (v : Visit) (entries : List ZipEntry)
      → visited x v ≡ ok entries
      → entries ≡ map file_entry (kept_at v.is_dir v.rel v.content)
  unfolding visited visited_at copied kept_at file_entry
  visited-kept v entries e = elim (Option-cases v.rel) [
    | inl no_rel ↦ ground arith
    | inr (rel, has_rel) ↦ elim (Option-cases v.content) [
      | inl no_content ↦ ground arith
      | inr (content, has_content) ↦ ground arith
    ]
  ]

  joined-ok :
      (a b : Result ExportError (List ZipEntry)) (entries : List ZipEntry)
      → joined x a b ≡ ok entries
      → (front back : List ZipEntry) × (a ≡ ok front) × (b ≡ ok back) × (entries ≡ front ++ back)
  unfolding joined
  joined-ok (err _) b entries e = ground arith
  joined-ok (ok front) (err _) entries e = ground arith
  joined-ok (ok front) (ok back) entries e = (front, back, refl, refl, ground (arith, e))

  map-append :
      (xs ys : List (Text × List ℕ))
      → map file_entry (xs ++ ys) ≡ map file_entry xs ++ map file_entry ys
  map-append [] ys = refl
  map-append (f ∷ xs) ys = ap (◌∷◌ (file_entry f)) (map-append xs ys)

  walked-kept :
      (vs : List Visit) (entries : List ZipEntry)
      → walked x vs ≡ ok entries
      → entries ≡ map file_entry (kept vs)
  unfolding walked kept
  walked-kept [] entries e = ground arith
  walked-kept (v ∷ vs) entries e =
      let (front, back, ef, eb, whole) = joined-ok (visited x v) (walked x vs) entries e in
      let here = visited-kept v front ef in
      let later = walked-kept vs back eb in
      whole ∙ rw (here, later) (sym (map-append (kept_at v.is_dir v.rel v.content) (kept vs)))

  archived-exported :
      (o : Option Text) (missing : Bool) (entries : List ZipEntry)
      → x.root_missing ≡ missing
      → archived x o ≡ ok entries
      → entries ≡ map file_entry (kept_below missing o x.walk)
  unfolding archived kept_below
  archived-exported none missing entries m e = ground arith
  archived-exported (some root) true entries m e = ground arith
  archived-exported (some root) false entries m e = walked-kept (x.walk root) entries (ground arith)

  written_to-ok :
      (files : Files) (r : Result ExportError (List ZipEntry)) (target : Target)
      (entries : List ZipEntry)
      → written_to files r target ≡ (ok tt, archive entries)
      → r ≡ ok entries
  unfolding written_to replaced
  written_to-ok files (err _) target entries e = ground arith
  written_to-ok files (ok others) target entries e = ground arith

  closed-ok :
      (r : Result ExportError (List ZipEntry)) (entries : List ZipEntry)
      → closed x r ≡ ok entries
      → r ≡ ok entries
  unfolding closed
  closed-ok (err _) entries e = ground arith
  closed-ok (ok others) entries e = ground arith

  with_config-ok :
      (o : Option (List ℕ)) (entries : List ZipEntry)
      → with_config x o ≡ ok entries
      → (bytes : List ℕ) × (o ≡ some bytes)
        × (entries ≡ entry_of config_name bytes ∷ map file_entry (exported x))
  unfolding with_config exported
  with_config-ok none entries e = ground arith
  with_config-ok (some bytes) entries e =
      let (front, back, ef, eb, whole) =
        joined-ok (ok (entry_of config_name bytes ∷ [])) (archived x x.profiles_root) entries
          (ground arith) in
      let files = archived-exported x.profiles_root x.root_missing back refl eb in
      (bytes, refl, ground arith)

  -- What a successful export has written.
  pub export_backup-entries :
      (files : Files) (config : ProxyConfig) (target : Target) (entries : List ZipEntry)
      → export_backup x files config target ≡ (ok tt, archive entries)
      → (bytes : List ℕ) × (x.marshal_config config ≡ some bytes)
        × (entries ≡ entry_of config_name bytes ∷ map file_entry (exported x))
  unfolding export_backup write_backup_archive
  export_backup-entries files config target entries e =
      with_config-ok (x.marshal_config config) entries (
        closed-ok (with_config x (x.marshal_config config)) entries
          (written_to-ok files (write_backup_archive x config) target entries (ground arith)))
