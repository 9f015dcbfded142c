-- ===== src/Backup/Tests.antt =====
-- An import at concrete data: an archive with a file of a profile and one that would leave the folder.
use proxy_for_windows_app.Base.{
  Bool, ok, All, arith, ◌≡◌, refl, inl, In, true, false, none, some, List, [], ◌∷◌, ◌++◌, err, drop,
  if◌then◌else◌, ℕ_discrete,
}
use proxy_for_windows_app.Base.Text.{
  Text, codes, same, Text-discrete, has_prefix, contains, split, on_head,
}
use proxy_for_windows_app.Base.Dict.{insert}
use proxy_for_windows_app.Backup.{
  ZipEntry, BackupHost, normalized, Disk, invalid_path, is_inside, import_backup, import_entries,
  import_entry, import_profile, write_file, from_slash, to_slash, should_skip, in_cache_dir,
  join_slash, chromium_cache_dirs, CacheHost, present, missing, clear_cache, clear_dirs,
  path_inside,
}
use proxy_for_windows_app.Backup.Cache.{clear_cache-inside}
use proxy_for_windows_app.Backup.Inside.{Untouched, import_backup-inside}
use proxy_for_windows_app.Backup.Export.{
  Visit, ExportHost, Files, Target, old, entry_of, config_name, export_backup, written_to, replaced,
  write_backup_archive, closed, with_config, archived, walked, joined, visited, visited_at, copied,
  end_signature, has_zip_end, describe_open_error, incomplete,
}
use proxy_for_windows_app.Backup.Exported.{exported, kept}
use proxy_for_windows_app.Backup.RoundTrip.{Works, IsBelow, restored, import_backup-export_backup}
use proxy_for_windows_app.Base.{ℕ, Result}
use proxy_for_windows_app.Apps.{Launched, NameFunctions}
use proxy_for_windows_app.Backup.Requests.{
  Backups, Sweep, handle_export_backup, Answers, handle_export_backup-Answers,
}
use proxy_for_windows_app.Backup.Archive.{has_zip_end-found}
use proxy_for_windows_app.Config.{ProxyConfig}

-- `..` at the start of the second path leads to the folder above.
resolve : Text → Text → Text
unfolding has_prefix
resolve root rest =
    if has_prefix rest (codes "..") then codes "C:" ++ drop 2 rest else root ++ codes "\\" ++ rest

abbrev host : BackupHost
host = record {
  profiles_root = some (codes "C:\\p");
  join = resolve;
  abs = λ path. some path;
  make_parent = λ path. true;
  create = λ path. true;
  unmarshal_config = λ content. none;
  net = record {
    query_escape = λ t. t;
    parse = λ t. none;
    split_host_port = λ t. none;
    is_ip = λ t. false;
    lookup_ip = λ t. none;
    scan_int = λ t. none;
  };
  volume_len = λ p. 2;
  new_id = λ n. codes "u";
  write_config = λ config. ok tt;
}

abbrev good : ZipEntry
good = record {
  name = codes "profiles/a/b";
  is_dir = false;
  opens = true;
  content = 1 ∷ [];
  complete = true;
}

abbrev bad : ZipEntry
bad = record good { name = codes "profiles/../q" }

abbrev archive : List ZipEntry
archive = good ∷ bad ∷ []

abbrev empty : Disk
empty = record { config = none; files = [] }

refused :
    import_backup host (some archive) empty
    ≡ (err invalid_path, record { config = none; files = (codes "C:\\p\\a\\b", 1 ∷ []) ∷ [] })
unfolding resolve import_backup import_entries import_entry import_profile write_file is_inside
    from_slash has_prefix Text-discrete ℕ_discrete insert
refused = refl

leaves : is_inside host (codes "C:\\p") (codes "C:\\q") ≡ false
unfolding resolve is_inside has_prefix Text-discrete ℕ_discrete
leaves = refl

import_backup-inside_example :
    Untouched host (codes "C:\\q") archive empty (import_backup host (some archive) empty)
import_backup-inside_example =
    import_backup-inside host (some archive) empty (codes "C:\\p") (codes "C:\\q") refl leaves

skips_cache : should_skip (codes "id\\Default\\Cache\\f") ≡ true
unfolding should_skip chromium_cache_dirs in_cache_dir join_slash to_slash split has_prefix contains
    Text-discrete ℕ_discrete
skips_cache = refl

-- One cache folder is there.
abbrev cache_host : CacheHost
cache_host = record {
  join = λ root path. root ++ codes "\\" ++ path;
  abs = λ path. some path;
  rel = λ root path. some (codes "x");
  stat = λ path. if same path (codes "C:\\Crashpad") then present else missing;
  remove_all = λ path. true;
}

removes_one : clear_cache cache_host (codes "C:") ≡ (none, codes "C:\\Crashpad" ∷ [])
unfolding clear_cache clear_dirs chromium_cache_dirs path_inside from_slash has_prefix Text-discrete
    ℕ_discrete
removes_one = refl

listed : In (codes "C:\\Crashpad") (clear_cache cache_host (codes "C:")).1
listed = rw removes_one (inl refl)

clear_cache-inside_example :
    (path_inside cache_host (codes "C:\\Crashpad") (codes "C:") ≡ true)
    × ((dir : Text) × In dir chromium_cache_dirs
        × (codes "C:\\Crashpad" ≡ cache_host.join (codes "C:") (from_slash dir)))
clear_cache-inside_example =
    clear_cache-inside cache_host (codes "C:") (codes "C:") (codes "C:\\Crashpad") refl listed

-- A profile with a folder, a file, and a file of a cache.
abbrev config : ProxyConfig
config = record {
  proxy_url = [];
  device = codes "tun://mytun";
  processes = [];
  proxies = [];
  applications = [];
}

abbrev visit_to : Bool → Text → Visit
visit_to is_dir rel = record {
  failed = false;
  is_dir = is_dir;
  rel = some rel;
  content = some (1 ∷ []);
  copies = true;
  closes = true;
}

abbrev exporter : ExportHost
exporter = record {
  marshal_config = λ config. some (codes "{}");
  create = λ name. true;
  writes = true;
  finishes = true;
  profiles_root = some (codes "C:\\p");
  root_missing = false;
  join = λ root path. root ++ codes "\\" ++ path;
  walk = λ root.
      visit_to true (codes "a")
      ∷ visit_to false (codes "a\\b")
      ∷ visit_to false (codes "a\\Default\\Cache\\f")
      ∷ [];
}

abbrev saves_well : Files
saves_well = record {
  makes_folder = true;
  makes_temporary = true;
  closes = true;
  removes = true;
  renames = true;
}

abbrev whole_archive : List ZipEntry
whole_archive = entry_of config_name (codes "{}") ∷ good ∷ []

exports : export_backup exporter saves_well config old ≡ (ok tt, Target.archive whole_archive)
unfolding export_backup written_to replaced write_backup_archive closed with_config archived walked
    joined visited visited_at copied should_skip chromium_cache_dirs in_cache_dir join_slash
    to_slash split on_head has_prefix contains Text-discrete ℕ_discrete
exports = refl

-- A system that reads back what `exporter` has written.
abbrev importer : BackupHost
importer = record host { unmarshal_config = λ content. some config }

importer-Works : Works exporter importer (codes "C:\\p") config
importer-Works = record {
  has_root = refl;
  makes = λ path. refl;
  creates = λ path. refl;
  saves = refl;
  reads = λ bytes e. refl;
}

exported-IsBelow : All (IsBelow exporter importer (codes "C:\\p")) (exported exporter)
unfolding exported kept should_skip chromium_cache_dirs in_cache_dir join_slash to_slash split
    on_head has_prefix contains Text-discrete ℕ_discrete IsBelow is_inside resolve
exported-IsBelow =
    ((refl, (λ h. ground arith, (λ h. ground arith, (λ h. ground arith, tt))), refl), tt)

import_backup-export_backup_example : import_backup importer (some whole_archive) empty ≡ (
  ok tt,
  record {
    config = some (normalized importer config);
    files = restored importer.join (codes "C:\\p") (exported exporter) [];
  },
)
import_backup-export_backup_example =
    import_backup-export_backup exporter importer (codes "C:\\p") config saves_well old
      whole_archive empty exports importer-Works exported-IsBelow

has_zip_end-found_example : has_zip_end (some ((1 ∷ 2 ∷ []) ++ (end_signature ++ 0 ∷ []))) ≡ true
has_zip_end-found_example = has_zip_end-found (1 ∷ 2 ∷ []) (0 ∷ []) (omega arith)

cut_archive : describe_open_error (some (codes "PK..")) (some (codes "PK..")) ≡ incomplete
unfolding describe_open_error has_zip_end has_prefix contains
cut_archive = refl

abbrev nobody : Bool → Launched → Result (Unit {0}) (List ℕ)
nobody late item = err tt

abbrev names : NameFunctions
names = record { to_lower = λ t. t; volume_len = λ t. 2 }

abbrev quiet : Sweep
quiet = record { table = []; polls = []; last = [] }

abbrev before : Backups
before = record {
  heartbeat = record { ui_seen = true; last_heartbeat = 5; busy = 0 };
  killed = [];
  target = old;
  disk = empty;
}

handle_export_backup-Answers_example : Answers names nobody exporter config before (
    handle_export_backup names nobody exporter saves_well config quiet 9 true
      (ok (codes "C:\\x"))
      before)
handle_export_backup-Answers_example =
    handle_export_backup-Answers names nobody exporter saves_well config quiet 9 true
      (ok (codes "C:\\x")) before
