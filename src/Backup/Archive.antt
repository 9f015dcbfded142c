-- ===== src/Backup/Archive.antt =====
-- The file at the path that is chosen for an export, and how the import tells a cut archive.
use proxy_for_windows_app.Base.{
  ℕ, zero, suc, ◌+◌, ◌-◌, ◌≤◌, ◌≡◌, refl, ◌⊎◌, inl, true, false, not, some, List, [], ◌∷◌, ◌++◌,
  Result, ok, err, length, drop, is_empty, arith, if_intro, length-append,
}
use proxy_for_windows_app.Base.Text.{contains, has_prefix}
use proxy_for_windows_app.Config.{ProxyConfig}
use proxy_for_windows_app.Backup.{ZipEntry}
use proxy_for_windows_app.Backup.Export.{
  ExportError, rename_failed, ExportHost, Target, absent, archive, Files, Exported, replaced,
  written_to, write_backup_archive, export_backup, end_signature, max_eocd_search, has_zip_end,
}

-- A whole archive; or the file as before; or no file, after the renaming failed.
unfoldable pub Replaces : Result ExportError (List ZipEntry) → Target → Exported → Type 0
Replaces made target (ok _, after) =
    (entries : List ZipEntry) × (made ≡ ok entries) × (after ≡ archive entries)
Replaces made target (err e, after) = (after ≡ target) ⊎ ((e ≡ rename_failed) × (after ≡ absent))

kept-Replaces :
    (made : Result ExportError (List ZipEntry)) (target : Target) (e : ExportError)
    → Replaces made target (err e, target)
unfolding Replaces
kept-Replaces made target e = inl refl

replaced-Replaces :
    (files : Files) (entries : List ZipEntry) (target : Target)
    → Replaces (ok entries) target (replaced files entries target)
unfolding replaced Replaces
replaced-Replaces files entries target = ground arith

written_to-Replaces :
    (files : Files) (r : Result ExportError (List ZipEntry)) (target : Target)
    → Replaces r target (written_to files r target)
unfolding written_to
written_to-Replaces files (err e) target = kept-Replaces (err e) target e
written_to-Replaces files (ok entries) target = replaced-Replaces files entries target

-- `exportBackup` never leaves a part of an archive at the chosen path: after a success the file is the
-- archive that `writeBackupArchive` made, and after an error it is the file that was there, or none, if
-- the renaming failed.
pub export_backup-Replaces :
    (host : ExportHost) (files : Files) (config : ProxyConfig) (target : Target)
    → Replaces (write_backup_archive host config) target (export_backup host files config target)
unfolding export_backup
export_backup-Replaces host files config target =
    let made = write_backup_archive host config in
    if_intro (Replaces made target) (not files.makes_folder) _ _ (λ _. kept-Replaces made target _)
      (λ _.
        if_intro (Replaces made target) (not files.makes_temporary) _ _
          (λ _. kept-Replaces made target _) (λ _. written_to-Replaces files made target))

drop-append : (n : ℕ) (xs ys : List ℕ) → n ≤ length xs → drop n (xs ++ ys) ≡ drop n xs ++ ys
drop-append zero xs ys short = refl
drop-append (suc n) [] ys short = ground arith
drop-append (suc n) (x ∷ xs) ys short = drop-append n xs ys (omega arith)

contains-signature :
    (xs rest : List ℕ) → contains (xs ++ (end_signature ++ rest)) end_signature ≡ true
unfolding contains has_prefix
contains-signature [] rest = refl
contains-signature (x ∷ xs) rest = ground (arith, contains-signature xs rest)

-- The end of the central directory of an archive is found, wherever it stands among the last 65557 bytes:
-- a record of 22 bytes and a comment of at most 65535.
pub has_zip_end-found :
    (before rest : List ℕ)
    → length (end_signature ++ rest) ≤ 22 + 65535
    → has_zip_end (some (before ++ (end_signature ++ rest))) ≡ true
unfolding has_zip_end
has_zip_end-found before rest near =
    let tail = end_signature ++ rest in
    let bytes = before ++ tail in
    let start = length bytes - max_eocd_search in
    let short : start ≤ length before = omega (arith, length-append before tail) in
    let full : is_empty bytes ≡ false = not_empty before in
    rw (full, drop-append start before tail short) (contains-signature (drop start before) rest)
  where
    not_empty : (xs : List ℕ) → is_empty (xs ++ (end_signature ++ rest)) ≡ false
    not_empty [] = refl
    not_empty (x ∷ xs) = refl
