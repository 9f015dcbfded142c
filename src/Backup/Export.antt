-- ===== src/Backup/Export.antt =====
-- The export of a backup in netmonitor-gui/main.go: `writeBackupArchive`, `exportBackup`,
-- `describeBackupOpenError` and `hasZipEndOfCentralDirectory`. An archive is the list of its entries;
-- JSON, the archive's writer and the file system are the record `ExportHost`.
use proxy_for_windows_app.Base.{
  ℕ, ◌-◌, Bool, true, false, not, Option, none, some, List, [], ◌∷◌, ◌++◌, Result, ok, err,
  if◌then◌else◌, length, drop, is_empty,
}
use proxy_for_windows_app.Base.Text.{Text, codes, contains, has_prefix}
use proxy_for_windows_app.Config.{ProxyConfig}
use proxy_for_windows_app.Backup.{ZipEntry, should_skip, to_slash}

-- What `filepath.WalkDir` calls its function with, and what the calls in it give: the path below the
-- root, the content if the file can be opened, and whether the copy and the closing succeed.
pub record Visit : Type 0 where
  pub failed : Bool
  pub is_dir : Bool
  pub rel : Option Text
  pub content : Option (List ℕ)
  pub copies : Bool
  pub closes : Bool

pub data ExportError : Type 0 where
  marshal_failed create_failed write_failed no_profiles_root walk_failed no_relative_path :
      ExportError
  open_failed copy_failed close_failed no_folder no_temporary remove_failed rename_failed :
      ExportError

pub record ExportHost : Type 0 where
  -- `json.MarshalIndent`
  pub marshal_config : ProxyConfig → Option (List ℕ)
  -- `zw.Create`, the `Write` of the configuration, and `zw.Close`
  pub create : Text → Bool
  pub writes : Bool
  pub finishes : Bool
  -- `profilesRoot`, and whether `os.Stat` finds no such folder
  pub profiles_root : Option Text
  pub root_missing : Bool
  -- `filepath.Join` of two paths
  pub join : Text → Text → Text
  -- the calls of `WalkDir` below the root
  pub walk : Text → List Visit

abbrev pub config_name : Text
config_name = codes "proxy_config.json"

-- An entry as the import will find it.
abbrev pub entry_of : Text → List ℕ → ZipEntry
entry_of name content = record {
  name = name;
  is_dir = false;
  opens = true;
  content = content;
  complete = true;
}

module _ (host : ExportHost) where
  abbrev pub entry_name : Text → Text
  entry_name rel = to_slash (host.join (codes "profiles") rel)

  -- The end of the function, from `os.Open` on: what it adds, or an error.
  unfoldable pub copied : Text → Visit → Option (List ℕ) → Result ExportError (List ZipEntry)
  copied rel v none = err open_failed
  copied rel v (some content) =
      if not v.copies
      then err copy_failed
      else if not v.closes
      then err close_failed
      else ok (entry_of (entry_name rel) content ∷ [])

  unfoldable pub visited_at : Visit → Option Text → Result ExportError (List ZipEntry)
  unfolding copied
  visited_at v none = err no_relative_path
  visited_at v (some rel) =
      if should_skip rel
      then ok []
      else if not (host.create (entry_name rel))
      then err create_failed
      else copied rel v v.content

  -- The function that `WalkDir` is given.
  unfoldable pub visited : Visit → Result ExportError (List ZipEntry)
  unfolding visited_at
  visited v = if v.failed then err walk_failed else if v.is_dir then ok [] else visited_at v v.rel

  unfoldable pub joined :
      Result ExportError (List ZipEntry)
      → Result ExportError (List ZipEntry)
      → Result ExportError (List ZipEntry)
  joined (err e) rest = err e
  joined (ok entries) (err e) = err e
  joined (ok entries) (ok others) = ok (entries ++ others)

  -- `WalkDir`: the first error ends it.
  unfoldable pub walked : List Visit → Result ExportError (List ZipEntry)
  unfolding visited joined
  walked [] = ok []
  walked (v ∷ vs) = let rest = walked vs in joined (visited v) rest

  -- Behind the entry of the configuration.
  unfoldable pub archived : Option Text → Result ExportError (List ZipEntry)
  unfolding walked
  archived none = err no_profiles_root
  archived (some root) = if host.root_missing then ok [] else walked (host.walk root)

  unfoldable pub with_config : Option (List ℕ) → Result ExportError (List ZipEntry)
  unfolding archived joined
  with_config none = err marshal_failed
  with_config (some bytes) =
      if not (host.create config_name)
      then err create_failed
      else if not host.writes
      then err write_failed
      else joined (ok (entry_of config_name bytes ∷ [])) (archived host.profiles_root)

  unfoldable pub closed : Result ExportError (List ZipEntry) → Result ExportError (List ZipEntry)
  closed (err e) = err e
  closed (ok entries) = if host.finishes then ok entries else err close_failed

  -- `writeBackupArchive`
  unfoldable pub write_backup_archive : ProxyConfig → Result ExportError (List ZipEntry)
  unfolding with_config closed
  write_backup_archive config = closed (with_config (host.marshal_config config))

-- What the file at the chosen path is.
pub data Target : Type 0 where
  absent : Target
  old : Target
  archive : List ZipEntry → Target

-- The calls of `exportBackup` around the archive: `MkdirAll`, `CreateTemp`, `Close`, `Remove` (which
-- may also find no file), `Rename`.
pub record Files : Type 0 where
  pub makes_folder : Bool
  pub makes_temporary : Bool
  pub closes : Bool
  pub removes : Bool
  pub renames : Bool

abbrev pub Exported : Type 0
Exported = Result ExportError (Unit {0}) × Target

-- From the `Close` of the temporary file on.
unfoldable pub replaced : Files → List ZipEntry → Target → Exported
replaced files entries target =
    if not files.closes
    then (err close_failed, target)
    else if not files.removes
    then (err remove_failed, target)
    else if not files.renames
    then (err rename_failed, absent)
    else (ok tt, archive entries)

unfoldable pub written_to : Files → Result ExportError (List ZipEntry) → Target → Exported
unfolding replaced
written_to files (err e) target = (err e, target)
written_to files (ok entries) target = replaced files entries target

-- `exportBackup`
unfoldable pub export_backup : ExportHost → Files → ProxyConfig → Target → Exported
unfolding written_to
export_backup host files config target =
    if not files.makes_folder
    then (err no_folder, target)
    else if not files.makes_temporary
    then (err no_temporary, target)
    else written_to files (write_backup_archive host config) target

-- The four bytes that begin the end of the central directory.
abbrev pub end_signature : List ℕ
end_signature = 0x50 ∷ 0x4b ∷ 0x05 ∷ 0x06 ∷ []

abbrev pub max_eocd_search : ℕ
max_eocd_search = 65557

-- `hasZipEndOfCentralDirectory`, given what can be read of the file; `none` is a failing `Stat` or
-- `ReadAt`.
unfoldable pub has_zip_end : Option (List ℕ) → Bool
has_zip_end none = false
has_zip_end (some bytes) =
    if is_empty bytes
    then false
    else contains (drop (length bytes - max_eocd_search) bytes) end_signature

pub data OpenError : Type 0 where
  not_readable cannot_be_opened incomplete no_backup : OpenError

-- `describeBackupOpenError`; the first argument is the file if `os.Open` succeeds, the second what
-- `hasZipEndOfCentralDirectory` can read.
unfoldable pub describe_open_error : Option (List ℕ) → Option (List ℕ) → OpenError
unfolding has_zip_end
describe_open_error none later = not_readable
describe_open_error (some bytes) later =
    if has_prefix bytes (codes "PK")
    then (if has_zip_end later then cannot_be_opened else incomplete)
    else no_backup
