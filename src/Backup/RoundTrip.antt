-- ===== src/Backup/RoundTrip.antt =====
-- An import of what an export has written.
use proxy_for_windows_app.Base.{
  ℕ, ◌≡◌, ◌≢◌, refl, true, some, List, [], ◌∷◌, ◌++◌, map, ok, arith, All, ℕ_discrete,
}
use proxy_for_windows_app.Base.Text.{Text, codes, has_prefix, Text-discrete}
use proxy_for_windows_app.Base.Dict.{Dict, insert}
use proxy_for_windows_app.Config.{ProxyConfig}
use proxy_for_windows_app.Backup.{
  ZipEntry, BackupHost, Disk, to_slash, from_slash, is_inside, write_file, import_profile, saved,
  normalized, written_config, import_config, import_entry, continued, import_entries, found,
  import_at, import_backup, profiles_prefix,
}
use proxy_for_windows_app.Backup.Export.{
  ExportHost, config_name, entry_of, entry_name, Target, archive, Files, export_backup,
}
use proxy_for_windows_app.Backup.Exported.{file_entry, exported, export_backup-entries}

-- A path of Windows is the same after `ToSlash` and `FromSlash`, if it has no slash.
from_slash-to_slash : (path : Text) → All (λ c. c ≢ 47) path → from_slash (to_slash path) ≡ path
unfolding from_slash to_slash
from_slash-to_slash [] free = refl
from_slash-to_slash (c ∷ path) (this, free) = ground (arith, from_slash-to_slash path free)

-- The files after the given ones have been written below `root`, one after another.
unfoldable pub restored :
    (Text → Text → Text) → Text → List (Text × List ℕ) → Dict Text (List ℕ) → Dict Text (List ℕ)
restored join root [] files = files
restored join root ((rel, content) ∷ others) files =
    restored join root others (insert Text-discrete (join root rel) content files)

module _ (x : ExportHost) (host : BackupHost) (root : Text) where
  -- A path below the root as `Rel` gives it: `Join` puts it behind the folder, and it stays inside.
  unfoldable pub IsBelow : Text × List ℕ → Type 0
  IsBelow (rel, content) =
      (x.join (codes "profiles") rel ≡ codes "profiles\\" ++ rel)
      × All (λ c. c ≢ 47) rel
      × (is_inside host root (host.join root rel) ≡ true)

  -- A system whose calls succeed, and that reads the configuration that was written.
  pub record Works (config : ProxyConfig) : Type 0 where
    pub has_root : host.profiles_root ≡ some root
    pub makes : (path : Text) → host.make_parent path ≡ true
    pub creates : (path : Text) → host.create path ≡ true
    pub saves : host.write_config (normalized host config) ≡ ok tt
    pub reads :
        (bytes : List ℕ)
        → x.marshal_config config ≡ some bytes
        → host.unmarshal_config bytes ≡ some config

  module _ (config : ProxyConfig) (works : Works config) where
    entry_name-below :
        (rel : Text)
        → x.join (codes "profiles") rel ≡ codes "profiles\\" ++ rel
        → entry_name x rel ≡ profiles_prefix ++ to_slash rel
    unfolding to_slash
    entry_name-below rel e = rw e refl

    import_file :
        (rel : Text) (content : List ℕ) (d : Disk)
        → IsBelow (rel, content)
        → import_entry host root (file_entry x (rel, content)) d
          ≡ (ok tt, record d { files = insert Text-discrete (host.join root rel) content d.files })
    unfolding import_entry import_profile write_file file_entry IsBelow has_prefix Text-discrete
        ℕ_discrete
    import_file rel content d (joined, no_slash, inside) =
        rw
          (
            entry_name-below rel joined,
            from_slash-to_slash rel no_slash,
            inside,
            works.makes (host.join root rel),
            works.creates (host.join root rel),
          )
          refl

    import_files :
        (files : List (Text × List ℕ)) (d : Disk)
        → All IsBelow files
        → import_entries host root (map (file_entry x) files) d
          ≡ (ok tt, record d { files = restored host.join root files d.files })
    unfolding import_entries continued restored
    import_files [] d below = refl
    import_files ((rel, content) ∷ files) d (here, below) = rw (import_file rel content d here) (
        import_files files
          (record d { files = insert Text-discrete (host.join root rel) content d.files }) below)

    import_config_entry :
        (bytes : List ℕ) (d : Disk)
        → x.marshal_config config ≡ some bytes
        → import_entry host root (entry_of config_name bytes) d
          ≡ (ok tt, record d { config = some (normalized host config) })
    unfolding import_entry import_config saved written_config Text-discrete ℕ_discrete
    import_config_entry bytes d e = rw (works.reads bytes e, works.saves) refl

    import_whole :
        (bytes : List ℕ) (files : List (Text × List ℕ)) (d : Disk)
        → x.marshal_config config ≡ some bytes
        → All IsBelow files
        → import_backup host (some (entry_of config_name bytes ∷ map (file_entry x) files)) d ≡ (
          ok tt,
          record {
            config = some (normalized host config);
            files = restored host.join root files d.files;
          },
        )
    unfolding import_backup import_at found import_entries continued Text-discrete ℕ_discrete
    import_whole bytes files d e below =
        rw
          (
            works.has_root,
            import_config_entry bytes d e,
            import_files files (record d { config = some (normalized host config) }) below,
          )
          refl

-- The archive of a successful export, imported where the system's calls succeed, leaves the
-- configuration that was exported, normalised once more, and writes each exported file below the folder of the profiles with
-- its content and changes no other; the exported files have paths as `Rel` gives them.
pub import_backup-export_backup :
    (x : ExportHost) (host : BackupHost) (root : Text) (config : ProxyConfig) (files : Files)
    (target : Target) (entries : List ZipEntry) (d : Disk)
    → export_backup x files config target ≡ (ok tt, archive entries)
    → Works x host root config
    → All (IsBelow x host root) (exported x)
    → import_backup host (some entries) d ≡ (
      ok tt,
      record {
        config = some (normalized host config);
        files = restored host.join root (exported x) d.files;
      },
    )
import_backup-export_backup x host root config files target entries d e works below =
    let (bytes, marshalled, whole) = export_backup-entries x files config target entries e in
    rw whole (import_whole x host root config works bytes (exported x) d marshalled below)
