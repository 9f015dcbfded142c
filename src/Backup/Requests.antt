-- ===== src/Backup/Requests.antt =====
-- The requests of netmonitor-gui/main.go for an export and an import: `handleExportBackup` and
-- `handleImportBackup`, over the heartbeat, the calls of taskkill, the chosen file and the disk. `path` is
-- what `chooseBackupPath` gives.
use proxy_for_windows_app.Base.{
  ℕ, ◌-◌, ◌≡◌, ◌≢◌, refl, ap, ◌⊎◌, inl, inr, Bool, true, false, not, Option, List, ◌++◌, Result, ok,
  err, if◌then◌else◌, arith,
}
use proxy_for_windows_app.Base.Text.{Text}
use proxy_for_windows_app.Base.Dict.{Dict}
use proxy_for_windows_app.Config.{ProxyConfig}
use proxy_for_windows_app.Apps.{Launched, Kill, NameFunctions, shutdown}
use proxy_for_windows_app.Heartbeat.{Heartbeat, begin_busy, end_busy}
use proxy_for_windows_app.Dialogs.{DialogError}
use proxy_for_windows_app.Backup.{ZipEntry, BackupHost, Disk, Done, import_backup}
use proxy_for_windows_app.Backup.Export.{
  ExportHost, Target, archive, Files, Exported, write_backup_archive, export_backup,
}
use proxy_for_windows_app.Backup.Archive.{Replaces, export_backup-Replaces}

-- What a request works on; the calls of taskkill are the newest last.
pub record Backups : Type 0 where
  pub heartbeat : Heartbeat
  pub killed : List Kill
  pub target : Target
  pub disk : Disk

-- What `shutdownLaunchedApplications` sees: the map at first, while it waits, and at the end.
pub record Sweep : Type 0 where
  pub table : Dict Text Launched
  pub polls : List (Dict Text Launched)
  pub last : Dict Text Launched

module _ (names : NameFunctions)
    (chromium_pids : Bool → Launched → Result (Unit {0}) (List ℕ)) where
  swept : Sweep → Backups → Backups
  swept sweep b = record b {
    killed = b.killed ++ shutdown names chromium_pids sweep.table sweep.polls sweep.last;
  }

  busy : Backups → Backups
  busy b = record b { heartbeat = begin_busy b.heartbeat }

  over : ℕ → Backups → Backups
  over now b = record b { heartbeat = end_busy now b.heartbeat }

  exported : Exported → Backups → ℕ × Backups
  exported (err _, target) b = (500, record b { target = target })
  exported (ok _, target) b = (204, record b { target = target })

  export_chosen :
      ExportHost → Files → ProxyConfig → Sweep → Result DialogError Text → Backups → ℕ × Backups
  unfolding swept exported
  export_chosen host files config sweep (err _) b = (400, b)
  export_chosen host files config sweep (ok path) b =
      exported (export_backup host files config b.target) (swept sweep b)

  -- `handleExportBackup`: the status, and the state when the deferred calls have run.
  unfoldable pub handle_export_backup :
      ExportHost
      → Files
      → ProxyConfig
      → Sweep
      → ℕ
      → Bool
      → Result DialogError Text
      → Backups
      → ℕ × Backups
  unfolding export_chosen busy over
  handle_export_backup host files config sweep now is_post path b =
      if not is_post
      then (405, b)
      else (let (status, b') = export_chosen host files config sweep path (busy b) in
          (status, over now b'))

  imported : Done → Backups → ℕ × Backups
  imported (err _, disk) b = (500, record b { disk = disk })
  imported (ok _, disk) b = (200, record b { disk = disk })

  import_chosen :
      BackupHost
      → (Text → Option (List ZipEntry))
      → Sweep
      → Result DialogError Text
      → Backups
      → ℕ × Backups
  unfolding swept imported
  import_chosen host opened sweep (err _) b = (400, b)
  import_chosen host opened sweep (ok path) b =
      imported (import_backup host (opened path) b.disk) (swept sweep b)

  -- `handleImportBackup`; `opened` is what `zip.OpenReader` reads at a path.
  unfoldable pub handle_import_backup :
      BackupHost
      → (Text → Option (List ZipEntry))
      → Sweep
      → ℕ
      → Bool
      → Result DialogError Text
      → Backups
      → ℕ × Backups
  unfolding import_chosen busy over
  handle_import_backup host opened sweep now is_post path b =
      if not is_post
      then (405, b)
      else (let (status, b') = import_chosen host opened sweep path (busy b) in
          (status, over now b'))

  -- No operation is left open; and a status of 204 is given exactly where the chosen file is the archive.
  unfoldable pub Answers : ExportHost → ProxyConfig → Backups → ℕ × Backups → Type 0
  Answers host config before (status, b) =
      (b.heartbeat.busy ≡ before.heartbeat.busy)
      × (((status ≡ 204)
            × ((entries : List ZipEntry) × (write_backup_archive host config ≡ ok entries)
                × (b.target ≡ archive entries)))
          ⊎ ((status ≢ 204) × ((b.target ≡ before.target) ⊎ (b.target ≡ Target.absent))))

  ended :
      (before b : Backups)
      → b.heartbeat ≡ begin_busy before.heartbeat
      → b.heartbeat.busy - 1 ≡ before.heartbeat.busy
  unfolding begin_busy
  ended before b began =
      let counted = ap (λ (h : Heartbeat). h.busy) began in omega (arith, counted)

  exported-Answers :
      (host : ExportHost) (config : ProxyConfig) (now : ℕ) (before b : Backups) (o : Exported)
      → Replaces (write_backup_archive host config) before.target o
      → b.heartbeat ≡ begin_busy before.heartbeat
      → Answers host config before (let (status, b') = exported o b in (status, over now b'))
  unfolding exported over Answers Replaces begin_busy end_busy
  exported-Answers host config now before b (err e, target) (inl same) began =
      (ended before b began, inr (λ h. ground arith, inl same))
  exported-Answers host config now before b (err e, target) (inr (_, gone)) began =
      (ended before b began, inr (λ h. ground arith, inr gone))
  exported-Answers host config now before b (ok _, target) (entries, made, is_archive) began =
      (ended before b began, inl (refl, (entries, made, is_archive)))

  -- A request to export leaves as many busy operations open as before, so that the watch can end the
  -- program again; it answers 204 exactly where the chosen file is the whole archive, and leaves the file
  -- as it was, or none, where it answers otherwise.
  pub handle_export_backup-Answers :
      (host : ExportHost) (files : Files) (config : ProxyConfig) (sweep : Sweep) (now : ℕ)
      (is_post : Bool) (path : Result DialogError Text) (b : Backups)
      → Answers host config b (handle_export_backup host files config sweep now is_post path b)
  unfolding handle_export_backup Answers over busy begin_busy end_busy swept
  handle_export_backup-Answers host files config sweep now false path b =
      (refl, inr (λ h. ground arith, inl refl))
  handle_export_backup-Answers host files config sweep now true (err _) b =
      (omega arith, inr (λ h. ground arith, inl refl))
  handle_export_backup-Answers host files config sweep now true (ok path) b =
      exported-Answers host config now b (swept sweep (busy b))
        (export_backup host files config b.target)
        (export_backup-Replaces host files config b.target) refl
