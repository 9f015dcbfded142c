-- ===== src/Backup.antt =====
-- The import of a backup in netmonitor-gui/main.go: `importBackup`, and the filter of the export,
-- `shouldSkipBackupEntry`, with `clearManagedChromiumCache`. Opening the archive, JSON, and the calls of the
-- file system are the record `BackupHost`; a failing call gives `none`, `false` or an error.
pub mod Inside
pub mod Cache
pub mod Export
pub mod Exported
pub mod Archive
pub mod Requests
pub mod RoundTrip
mod Tests
use proxy_for_windows_app.Base.{
  ℕ, ltb, Bool, true, false, not, ◌&&◌, ◌||◌, Option, none, some, List, [], ◌∷◌, ◌++◌, map, Result,
  ok, err, any, keep, drop, length, is_empty, ◌==◌, if◌then◌else◌,
}
use proxy_for_windows_app.Base.Text.{Text, codes, same, split, has_prefix, contains, Text-discrete}
use proxy_for_windows_app.Base.Dict.{Dict, insert}
use proxy_for_windows_app.Address.{NetFunctions}
use proxy_for_windows_app.Config.{ProxyConfig, normalize_proxy_config}

-- An entry of the archive: whether it is a folder, whether it can be opened, what can be read of it, and
-- whether that is all of it.
pub record ZipEntry : Type 0 where
  pub name : Text
  pub is_dir : Bool
  pub opens : Bool
  pub content : List ℕ
  pub complete : Bool

pub data BackupError : Type 0 where
  not_opened no_profiles_root read_failed bad_config save_failed invalid_path : BackupError
  write_failed config_missing no_absolute_path : BackupError

pub record BackupHost : Type 0 where
  -- `profilesRoot`
  pub profiles_root : Option Text
  -- `filepath.Join` of two paths, and `filepath.Abs`
  pub join : Text → Text → Text
  pub abs : Text → Option Text
  -- `os.MkdirAll(filepath.Dir(target))`, and `os.Create(target)`
  pub make_parent : Text → Bool
  pub create : Text → Bool
  -- `json.Unmarshal` of a configuration
  pub unmarshal_config : List ℕ → Option ProxyConfig
  -- What `normalizeProxyConfig` calls. The answers of `uuid.NewString` are those of the last save, which
  -- replaces what earlier ones have written.
  pub net : NetFunctions
  pub volume_len : Text → ℕ
  pub new_id : ℕ → Text
  -- `os.WriteFile` of a configuration; if it fails, it may have cut the file, and what can be read of the
  -- file then is given.
  pub write_config : ProxyConfig → Result (Option ProxyConfig) (Unit {0})

-- The configuration in proxy_config.json, which stands beside the executable, if one can be read of it, and
-- the other files.
pub record Disk : Type 0 where
  pub config : Option ProxyConfig
  pub files : Dict Text (List ℕ)

abbrev pub Done : Type 0
Done = Result BackupError (Unit {0}) × Disk

-- `filepath.ToSlash` and `filepath.FromSlash`
unfoldable pub to_slash : Text → Text
to_slash path = map (λ c. if c == 92 then 47 else c) path

unfoldable pub from_slash : Text → Text
from_slash path = map (λ c. if c == 47 then 92 else c) path

abbrev pub profiles_prefix : Text
profiles_prefix = codes "profiles/"

-- Whether a path's absolute form is that of the root, or below it.
inside_of : Option Text → Option Text → Bool
inside_of none target = false
inside_of (some root) none = false
inside_of (some root) (some target) = same target root || has_prefix target (root ++ codes "\\")

module _ (host : BackupHost) where
  -- The test of `importBackup` on `cleanTarget`; false too where `filepath.Abs` fails.
  unfoldable pub is_inside : Text → Text → Bool
  unfolding inside_of
  is_inside root target = inside_of (host.abs root) (host.abs target)

  -- From the creation of the file on.
  unfoldable pub write_file : Text → ZipEntry → Disk → Done
  write_file target entry d =
      if not entry.opens
      then (err read_failed, d)
      else if not (host.create target)
      then (err write_failed, d)
      else (
        (if entry.complete then ok tt else err read_failed),
        record d { files = insert Text-discrete target entry.content d.files },
      )

  -- The second case of the `switch`: a file of a profile.
  unfoldable pub import_profile : Text → ZipEntry → Disk → Done
  unfolding is_inside write_file from_slash
  import_profile root entry d =
      let target = host.join root (from_slash (drop (length profiles_prefix) entry.name)) in
      if not (is_inside root target)
      then (err invalid_path, d)
      else if not (host.make_parent target)
      then (err write_failed, d)
      else write_file target entry d

  unfoldable pub normalized : ProxyConfig → ProxyConfig
  normalized config = normalize_proxy_config host.net host.volume_len host.new_id config

  -- The end of `saveProxyConfig`.
  written_config : ProxyConfig → Result (Option ProxyConfig) (Unit {0}) → Disk → Done
  written_config config (ok _) d = (ok tt, record d { config = some config })
  written_config config (err left) d = (err save_failed, record d { config = left })

  saved : Option ProxyConfig → Disk → Done
  unfolding normalized written_config
  saved none d = (err bad_config, d)
  saved (some config) d =
      written_config (normalized config) (host.write_config (normalized config)) d

  -- The first case of the `switch`: the configuration.
  unfoldable pub import_config : ZipEntry → Disk → Done
  unfolding saved
  import_config entry d =
      if entry.opens && entry.complete
      then saved (host.unmarshal_config entry.content) d
      else (err read_failed, d)

  abbrev pub is_config : ZipEntry → Bool
  is_config entry = same entry.name (codes "proxy_config.json")

  -- The `switch`.
  unfoldable pub import_entry : Text → ZipEntry → Disk → Done
  unfolding import_config import_profile
  import_entry root entry d =
      if is_config entry
      then import_config entry d
      else if has_prefix entry.name profiles_prefix && not entry.is_dir
      then import_profile root entry d
      else (ok tt, d)

  continued : Done → Done → Done
  continued (err e, d) rest = (err e, d)
  continued (ok _, d) rest = rest

  -- The loop of `importBackup`; an error ends it.
  unfoldable pub import_entries : Text → List ZipEntry → Disk → Done
  unfolding import_entry continued
  import_entries root [] d = (ok tt, d)
  import_entries root (entry ∷ entries) d =
      continued (import_entry root entry d)
        (import_entries root entries (import_entry root entry d).1)

  found : Bool → Done → Done
  found config_found (err e, d) = (err e, d)
  found config_found (ok _, d) = ((if config_found then ok tt else err config_missing), d)

  import_at : Option Text → List ZipEntry → Disk → Done
  unfolding import_entries found
  import_at none entries d = (err no_profiles_root, d)
  import_at (some root) entries d = found (any is_config entries) (import_entries root entries d)

  -- `importBackup`, given what `zip.OpenReader` reads.
  unfoldable pub import_backup : Option (List ZipEntry) → Disk → Done
  unfolding import_at
  import_backup none d = (err not_opened, d)
  import_backup (some entries) d = import_at host.profiles_root entries d

-- `strings.Join(parts, "/")`
unfoldable pub join_slash : List Text → Text
join_slash [] = []
join_slash (part ∷ []) = part
join_slash (part ∷ next ∷ parts) = part ++ b'/' ∷ join_slash (next ∷ parts)

-- The test in the loop of `shouldSkipBackupEntry`.
unfoldable pub in_cache_dir : Text → Text → Bool
in_cache_dir profile_rel dir =
    same profile_rel dir
    || (has_prefix profile_rel (dir ++ codes "/")
        || contains profile_rel (codes "/" ++ dir ++ codes "/"))

-- `chromiumCacheDirs`
unfoldable pub chromium_cache_dirs : List Text
chromium_cache_dirs =
    codes "ActorSafetyLists"
    ∷ codes "AutofillAiModelCache"
    ∷ codes "CertificateRevocation"
    ∷ codes "component_crx_cache"
    ∷ codes "Crashpad"
    ∷ codes "Crowd Deny"
    ∷ codes "Default/Cache"
    ∷ codes "Default/Code Cache"
    ∷ codes "Default/DawnGraphiteCache"
    ∷ codes "Default/DawnWebGPUCache"
    ∷ codes "Default/GPUCache"
    ∷ codes "Default/JumpListIconsMostVisited"
    ∷ codes "Default/JumpListIconsRecentClosed"
    ∷ codes "Default/optimization_guide_hint_cache_store"
    ∷ codes "Default/Safe Browsing Network"
    ∷ codes "Default/Service Worker/CacheStorage"
    ∷ codes "Default/Shared Dictionary"
    ∷ codes "Default/VideoDecodeStats"
    ∷ codes "GrShaderCache"
    ∷ codes "GraphiteDawnCache"
    ∷ codes "hyphen-data"
    ∷ codes "OnDeviceHeadSuggestModel"
    ∷ codes "OptGuideOnDeviceClassifierModel"
    ∷ codes "OptGuideOnDeviceModel"
    ∷ codes "OptimizationHints"
    ∷ codes "optimization_guide_model_store"
    ∷ codes "PKIMetadata"
    ∷ codes "Safe Browsing"
    ∷ codes "ShaderCache"
    ∷ codes "Subresource Filter"
    ∷ codes "WasmTtsEngine"
    ∷ codes "Webstore Downloads"
    ∷ codes "ZxcvbnData"
    ∷ []

skip_parts : List Text → Bool
unfolding in_cache_dir join_slash chromium_cache_dirs
skip_parts [] = false
skip_parts (profile ∷ []) = false
skip_parts (profile ∷ part ∷ parts) =
    any (in_cache_dir (join_slash (part ∷ parts))) chromium_cache_dirs

-- `shouldSkipBackupEntry`
unfoldable pub should_skip : Text → Bool
unfolding skip_parts to_slash
should_skip rel = skip_parts (keep (λ part. not (is_empty part)) (split b'/' (to_slash rel)))

-- What `os.Stat` finds.
pub data Found : Type 0 where
  missing unreadable present : Found

pub data CacheError : Type 0 where
  no_absolute_profile outside_profile stat_failed remove_failed : CacheError

-- `filepath.Join`, `filepath.Abs`, `filepath.Rel`, `os.Stat` and `os.RemoveAll`; each folder is asked for
-- once.
pub record CacheHost : Type 0 where
  pub join : Text → Text → Text
  pub abs : Text → Option Text
  pub rel : Text → Text → Option Text
  pub stat : Text → Found
  pub remove_all : Text → Bool

module _ (host : CacheHost) where
  -- The end of `pathInside`, given what `filepath.Rel` answers.
  rel_inside : Option Text → Bool
  rel_inside none = false
  rel_inside (some rel) =
      not (same rel (codes "."))
      && (not (same rel (codes "..")) && not (has_prefix rel (codes "..\\")))

  abs_inside : Option Text → Option Text → Bool
  unfolding rel_inside
  abs_inside none root = false
  abs_inside (some path) none = false
  abs_inside (some path) (some root) = rel_inside (host.rel root path)

  -- `pathInside`
  unfoldable pub path_inside : Text → Text → Bool
  unfolding abs_inside
  path_inside path root = abs_inside (host.abs path) (host.abs root)

  abbrev Cleared : Type 0
  Cleared = Option CacheError × List Text

  removed_at : Text → Found → Bool → Cleared → Cleared
  removed_at target missing removes rest = rest
  removed_at target unreadable removes rest = (some stat_failed, [])
  removed_at target present removes (e, targets) =
      if removes then (e, target ∷ targets) else (some remove_failed, [])

  -- The loop of `clearManagedChromiumCache`: the error, if there is one, and the folders removed.
  unfoldable pub clear_dirs : Text → List Text → Cleared
  unfolding removed_at path_inside from_slash
  clear_dirs profile [] = (none, [])
  clear_dirs profile (dir ∷ dirs) =
      let rest = clear_dirs profile dirs in
      let target = host.join profile (from_slash dir) in
      if not (path_inside target profile)
      then (some outside_profile, [])
      else removed_at target (host.stat target) (host.remove_all target) rest

  clear_at : Option Text → Cleared
  unfolding clear_dirs chromium_cache_dirs
  clear_at none = (some no_absolute_profile, [])
  clear_at (some profile) = clear_dirs profile chromium_cache_dirs

  -- `clearManagedChromiumCache`; the count it returns is that of the folders removed.
  unfoldable pub clear_cache : Text → Cleared
  unfolding clear_at
  clear_cache profile_dir = clear_at (host.abs profile_dir)
