-- ===== src/Backup/Inside.antt =====
-- Which files `importBackup` changes.
use mathlib.Core.Path.{subst}
use proxy_for_windows_app.Base.{
  ◌≡◌, refl, sym, ap, ◌∙◌, Bool, true, false, not, ◌&&◌, Option, none, some, List, [], ◌∷◌, Result,
  ok, err, any, drop, length, arith, if_intro, Bool-cases, ◌⊎◌, inl, inr, value_or,
}
use proxy_for_windows_app.Base.Text.{Text, Text-discrete, has_prefix}
use proxy_for_windows_app.Base.Dict.{lookup, insert, lookup-insert}
use proxy_for_windows_app.Config.{ProxyConfig}
use proxy_for_windows_app.Backup.{
  ZipEntry, BackupError, BackupHost, Disk, Done, is_inside, write_file, import_profile, saved,
  normalized, written_config, import_config, is_config, import_entry, import_entries, found,
  continued, import_at, import_backup, profiles_prefix, from_slash,
}

module _ (host : BackupHost) (root path : Text) (outside : is_inside host root path ≡ false) where
  -- The file at `path` is the same as before.
  Keeps : Disk → Done → Type 0
  Keeps d o = lookup Text-discrete path o.1.files ≡ lookup Text-discrete path d.files

  Keeps-err : (d : Disk) (r : Result BackupError (Unit {0})) → Keeps d (r, d)
  unfolding Keeps
  Keeps-err d r = refl

  inserted-Keeps :
      (target : Text) (entry : ZipEntry) (d : Disk) (r : Result BackupError (Unit {0}))
      → is_inside host root target ≡ true
      → Keeps d (r, record d { files = insert Text-discrete target entry.content d.files })
  unfolding Keeps
  inserted-Keeps target entry d r inside = elim (Text-discrete path target) [
    | yes e ↦ absurd (ground (arith, ap (is_inside host root) e))
    | no n ↦ ground (arith, lookup-insert Text-discrete path target entry.content d.files)
  ]

  write_file-Keeps :
      (target : Text) (entry : ZipEntry) (d : Disk)
      → is_inside host root target ≡ true
      → Keeps d (write_file host target entry d)
  unfolding write_file
  write_file-Keeps target entry d inside =
      if_intro (Keeps d) (not entry.opens) _ _ (λ _. Keeps-err d _)
        (λ _.
          if_intro (Keeps d) (not (host.create target)) _ _ (λ _. Keeps-err d _)
            (λ _. inserted-Keeps target entry d _ inside))

  import_profile-Keeps : (entry : ZipEntry) (d : Disk) → Keeps d (import_profile host root entry d)
  unfolding import_profile
  import_profile-Keeps entry d =
      let target = host.join root (from_slash (drop (length profiles_prefix) entry.name)) in
      if_intro (Keeps d) (not (is_inside host root target)) _ _ (λ _. Keeps-err d _)
        (λ inside.
          if_intro (Keeps d) (not (host.make_parent target)) _ _ (λ _. Keeps-err d _)
            (λ _. write_file-Keeps target entry d (ground arith)))

  written_config-Keeps :
      (config : ProxyConfig) (r : Result (Option ProxyConfig) (Unit {0})) (d : Disk)
      → Keeps d (written_config host config r d)
  unfolding written_config Keeps
  written_config-Keeps config (ok _) d = refl
  written_config-Keeps config (err left) d = refl

  saved-Keeps : (config : Option ProxyConfig) (d : Disk) → Keeps d (saved host config d)
  unfolding saved Keeps
  saved-Keeps none d = refl
  saved-Keeps (some config) d =
      written_config-Keeps (normalized host config) (host.write_config (normalized host config)) d

  import_entry-Keeps : (entry : ZipEntry) (d : Disk) → Keeps d (import_entry host root entry d)
  unfolding import_entry import_config
  import_entry-Keeps entry d =
      if_intro (Keeps d) (is_config host entry) _ _
        (λ _.
          if_intro (Keeps d) (entry.opens && entry.complete) _ _ (λ _. saved-Keeps _ d)
            (λ _. Keeps-err d _))
        (λ _.
          if_intro (Keeps d) (has_prefix entry.name profiles_prefix && not entry.is_dir) _ _
            (λ _. import_profile-Keeps entry d) (λ _. Keeps-err d _))

  continued-Keeps :
      (o rest : Done) (d : Disk) → Keeps d o → Keeps o.1 rest → Keeps d (continued host o rest)
  unfolding continued Keeps
  continued-Keeps (err e, d') rest d here later = here
  continued-Keeps (ok _, d') rest d here later = later ∙ here

  import_entries-Keeps :
      (entries : List ZipEntry) (d : Disk) → Keeps d (import_entries host root entries d)
  unfolding import_entries
  import_entries-Keeps [] d = Keeps-err d _
  import_entries-Keeps (entry ∷ entries) d =
      let now = import_entry host root entry d in
      continued-Keeps now (import_entries host root entries now.1) d (import_entry-Keeps entry d)
        (import_entries-Keeps entries now.1)

  found-Keeps :
      (with_config : Bool) (o : Done) (d : Disk) → Keeps d o → Keeps d (found host with_config o)
  unfolding found Keeps
  found-Keeps with_config (err e, d') d kept = kept
  found-Keeps with_config (ok _, d') d kept = kept

  at_root-Keeps :
      (entries : List ZipEntry) (d : Disk)
      → lookup Text-discrete path (import_at host (some root) entries d).1.files
        ≡ lookup Text-discrete path d.files
  unfolding import_at Keeps
  at_root-Keeps entries d =
      found-Keeps (any (is_config host) entries) (import_entries host root entries d) d
        (import_entries-Keeps entries d)

module _ (host : BackupHost) (root : Text) where
  -- The configuration is as before.
  SameConfig : Disk → Done → Type 0
  SameConfig d o = o.1.config ≡ d.config

  SameConfig-refl : (d : Disk) (r : Result BackupError (Unit {0})) → SameConfig d (r, d)
  unfolding SameConfig
  SameConfig-refl d r = refl

  write_file-SameConfig :
      (target : Text) (entry : ZipEntry) (d : Disk) → SameConfig d (write_file host target entry d)
  unfolding write_file SameConfig
  write_file-SameConfig target entry d =
      if_intro (λ (o : Done). o.1.config ≡ d.config) (not entry.opens) _ _ (λ _. refl)
        (λ _.
          if_intro (λ (o : Done). o.1.config ≡ d.config) (not (host.create target)) _ _ (λ _. refl)
            (λ _. refl))

  import_profile-SameConfig :
      (entry : ZipEntry) (d : Disk) → SameConfig d (import_profile host root entry d)
  unfolding import_profile
  import_profile-SameConfig entry d =
      let target = host.join root (from_slash (drop (length profiles_prefix) entry.name)) in
      if_intro (SameConfig d) (not (is_inside host root target)) _ _ (λ _. SameConfig-refl d _)
        (λ _.
          if_intro (SameConfig d) (not (host.make_parent target)) _ _ (λ _. SameConfig-refl d _)
            (λ _. write_file-SameConfig target entry d))

  import_entry-SameConfig :
      (entry : ZipEntry) (d : Disk)
      → is_config host entry ≡ false
      → SameConfig d (import_entry host root entry d)
  unfolding import_entry
  import_entry-SameConfig entry d other =
      if_intro (SameConfig d) (is_config host entry) _ _ (λ this. absurd (ground arith))
        (λ _.
          if_intro (SameConfig d) (has_prefix entry.name profiles_prefix && not entry.is_dir) _ _
            (λ _. import_profile-SameConfig entry d) (λ _. SameConfig-refl d _))

  continued-SameConfig :
      (o rest : Done) (d : Disk)
      → SameConfig d o
      → SameConfig o.1 rest
      → SameConfig d (continued host o rest)
  unfolding continued SameConfig
  continued-SameConfig (err e, d') rest d here later = here
  continued-SameConfig (ok _, d') rest d here later = later ∙ here

  import_entries-SameConfig :
      (entries : List ZipEntry) (d : Disk)
      → any (is_config host) entries ≡ false
      → SameConfig d (import_entries host root entries d)
  unfolding import_entries
  import_entries-SameConfig [] d none_is = SameConfig-refl d _
  import_entries-SameConfig (entry ∷ entries) d none_is =
      let now = import_entry host root entry d in
      continued-SameConfig now (import_entries host root entries now.1) d
        (import_entry-SameConfig entry d (ground arith))
        (import_entries-SameConfig entries now.1 (ground arith))

  found-SameConfig :
      (with_config : Bool) (o : Done) (d : Disk)
      → SameConfig d o
      → SameConfig d (found host with_config o)
  unfolding found SameConfig
  found-SameConfig with_config (err e, d') d kept = kept
  found-SameConfig with_config (ok _, d') d kept = kept

  at_root-SameConfig :
      (entries : List ZipEntry) (d : Disk)
      → any (is_config host) entries ≡ false
      → (import_at host (some root) entries d).1.config ≡ d.config
  unfolding import_at SameConfig
  at_root-SameConfig entries d none_is =
      found-SameConfig (any (is_config host) entries) (import_entries host root entries d) d
        (import_entries-SameConfig entries d none_is)

-- What an import may change: no file but proxy_config.json whose absolute path is neither that of the
-- profiles folder nor below it; and proxy_config.json only if the archive has an entry of that name.
unfoldable pub Untouched : BackupHost → Text → List ZipEntry → Disk → Done → Type 0
Untouched host path entries d o =
    (lookup Text-discrete path o.1.files ≡ lookup Text-discrete path d.files)
    × ((o.1.config ≡ d.config) ⊎ (any (is_config host) entries ≡ true))

-- Whatever an archive holds, its import changes no file other than proxy_config.json whose absolute path is
-- neither that of the profiles folder nor below it, and changes proxy_config.json only if the archive has an
-- entry of that name, whether the import succeeds or fails.
pub import_backup-inside :
    (host : BackupHost) (archive : Option (List ZipEntry)) (d : Disk) (root path : Text)
    → host.profiles_root ≡ some root
    → is_inside host root path ≡ false
    → Untouched host path (value_or archive []) d (import_backup host archive d)
unfolding import_backup Untouched
import_backup-inside host none d root path e outside = (refl, inl refl)
import_backup-inside host (some entries) d root path e outside =
    subst (λ o. Untouched host path entries d (import_at host o entries d)) (sym e)
      (
        at_root-Keeps host root path outside entries d,
        elim (Bool-cases (any (is_config host) entries)) [
          | inl named ↦ inr named
          | inr none_is ↦ inl (at_root-SameConfig host root entries d none_is)
        ],
      )
