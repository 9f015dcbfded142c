-- ===== src/Launch.antt =====
-- How netmonitor-gui/main.go builds the command that starts an application:
-- `buildLaunchCommand` and `buildVSCodeCommand`; Launch/Processes waits for processes and ends them. What the file system, the
-- network and JSON answer is the record `Host`; a failing call gives `none` or `false`.
pub mod Processes
pub mod Monitor
pub mod Settings
pub mod Profile
pub mod Command
mod Tests
use proxy_for_windows_app.Base.{
  ℕ, suc, ◌==◌, Bool, true, false, not, ◌&&◌, Option, none, some, List, [], ◌∷◌, ◌++◌, map, Result,
  ok, err, if◌then◌else◌, is_empty, is_some,
}
use proxy_for_windows_app.Base.Text.{Text, codes, same, Text-discrete}
use proxy_for_windows_app.Base.Dict.{Dict, lookup, insert, erase}
use proxy_for_windows_app.Address.{
  NetFunctions, AddressError, parse_browser_proxy, normalized_proxy_or_raw,
}
use proxy_for_windows_app.Config.{Application}
use proxy_for_windows_app.Apps.{
  Launched, Apps, NameFunctions, Kill, exe_name, is_vscode, uses_proxy_bridge_mode, close_bridge,
  remove_launched,
}

-- A value of a `map[string]any`; `raw` has any other kind of value, as JSON text.
pub data Json : Type 0 where
  text : Text → Json
  flag : Bool → Json
  raw : Text → Json

abbrev pub Settings : Type 0
Settings = Dict Text Json

pub record Host : Type 0 where
  -- `os.UserConfigDir`
  pub user_config_dir : Option Text
  pub mkdir_all : Text → Bool
  pub join : List Text → Text
  pub dir : Text → Text
  pub environ : List Text
  -- `os.ReadFile`
  pub read_file : Text → Option (List ℕ)
  -- `len(strings.TrimSpace(string(existing))) == 0`
  pub is_blank : List ℕ → Bool
  pub unmarshal : List ℕ → Option Settings
  -- `json.MarshalIndent` and `os.WriteFile` of its result
  pub write_settings : Text → Settings → Bool
  -- whether `net.Listen` succeeds, and the address of each bridge
  pub listen : Bool
  pub bridge_addr : ℕ → Text

pub data LaunchError : Type 0 where
  no_config_dir mkdir_failed listen_failed bad_settings write_failed : LaunchError
  query_failed profile_not_found force_close_failed : LaunchError
  bad_proxy : AddressError → LaunchError

-- `exec.Cmd`; without `env` the process inherits the environment.
pub record LaunchCommand : Type 0 where
  pub path : Text
  pub args : List Text
  pub env : Option (List Text)

-- What `buildLaunchCommand` returns.
pub record Built : Type 0 where
  pub command : LaunchCommand
  pub profile_dir : Text
  pub bridge_mode : Bool
  pub bridge : Option ℕ

-- The launched applications, and how many bridges were started.
pub record LaunchState : Type 0 where
  pub apps : Apps
  pub next_bridge : ℕ

-- `trimUTF8BOM`
unfoldable pub trim_utf8_bom : List ℕ → List ℕ
trim_utf8_bom (a ∷ b ∷ c ∷ rest) =
    if a == 239 && (b == 187 && c == 191) then rest else a ∷ b ∷ c ∷ rest
trim_utf8_bom rest = rest

-- `if settings[key] == value { delete(settings, key) }`
unfoldable pub drop_if : Text → Text → Settings → Settings
drop_if key value settings = elim (lookup Text-discrete key settings) [
  | some (text t) ↦ if same t value then erase Text-discrete key settings else settings
  | some (flag b) ↦ settings
  | some (raw t) ↦ settings
  | none ↦ settings
]

-- `removeLegacyVSCodeWindowOverrides`
unfoldable pub remove_legacy_overrides : Settings → Settings
unfolding drop_if
remove_legacy_overrides settings = drop_if (codes "window.openFilesInNewWindow") (codes "on") (
    drop_if (codes "window.openFoldersInNewWindow") (codes "on")
      (drop_if (codes "window.restoreWindows") (codes "none") settings))

-- The settings that `buildVSCodeCommand` writes, from those that it read.
unfoldable pub with_proxy : Text → Settings → Settings
unfolding remove_legacy_overrides
with_proxy local_proxy settings = remove_legacy_overrides (
    insert Text-discrete (codes "http.proxyStrictSSL") (flag false) (
      insert Text-discrete (codes "http.proxySupport") (text (codes "override"))
        (insert Text-discrete (codes "http.proxy") (text local_proxy) settings)))

module _ (host : Host) where
  -- The settings of the file, or none.
  unfoldable pub read_settings : Text → Result LaunchError Settings
  unfolding trim_utf8_bom
  read_settings path = elim (host.read_file path) [
    | none ↦ ok []
    | some existing ↦
        if host.is_blank existing then ok [] else elim (host.unmarshal (trim_utf8_bom existing)) [
          | none ↦ err bad_settings
          | some settings ↦ ok settings
        ]
  ]

  -- `vsCodeEnvironment`
  unfoldable pub vscode_environment : Text → Text → List Text
  vscode_environment profile_root local_proxy =
      host.environ
      ++ (codes "HTTP_PROXY=" ++ local_proxy)
        ∷ (codes "HTTPS_PROXY=" ++ local_proxy)
        ∷ (codes "ALL_PROXY=" ++ local_proxy)
        ∷ (codes "http_proxy=" ++ local_proxy)
        ∷ (codes "https_proxy=" ++ local_proxy)
        ∷ (codes "all_proxy=" ++ local_proxy)
        ∷ (codes "CODEX_HOME=" ++ host.join (profile_root ∷ codes "codex-home" ∷ []))
        ∷ []

  vscode_command : Application → Text → Text → Text → LaunchCommand
  unfolding vscode_environment
  vscode_command app profile_root user_data_dir local_proxy = record {
    path = app.path;
    args =
        (codes "--user-data-dir=" ++ user_data_dir)
        ∷ (codes "--extensions-dir=" ++ host.join (profile_root ∷ codes "extensions" ∷ []))
        ∷ (codes "--proxy-server=" ++ local_proxy)
        ∷ [];
    env = some (vscode_environment profile_root local_proxy);
  }

  -- The end of `buildVSCodeCommand`, from the settings that were read.
  written :
      Application
      → Text
      → Text
      → Text
      → Text
      → Result LaunchError Settings
      → Result LaunchError LaunchCommand
  unfolding vscode_command with_proxy
  written app profile_root user_data_dir local_proxy settings_path (err e) = err e
  written app profile_root user_data_dir local_proxy settings_path (ok settings) =
      if host.write_settings settings_path (with_proxy local_proxy settings)
      then ok (vscode_command app profile_root user_data_dir local_proxy)
      else err write_failed

  -- `buildVSCodeCommand`
  unfoldable pub build_vscode_command :
      Application → Text → Text → Text → Result LaunchError LaunchCommand
  unfolding written read_settings
  build_vscode_command app profile_root user_data_dir local_proxy =
      let settings_dir = host.join (user_data_dir ∷ codes "User" ∷ []) in
      let settings_path = host.join (settings_dir ∷ codes "settings.json" ∷ []) in
      if not (host.mkdir_all (host.join (profile_root ∷ codes "extensions" ∷ [])))
      then err mkdir_failed
      else if not (host.mkdir_all (host.join (profile_root ∷ codes "codex-home" ∷ [])))
      then err mkdir_failed
      else if not (host.mkdir_all settings_dir)
      then err mkdir_failed
      else written app profile_root user_data_dir local_proxy settings_path
          (read_settings settings_path)

  browser_command : Application → Text → Text → LaunchCommand
  browser_command app profile_dir local_proxy = record {
    path = app.path;
    args =
        (codes "--user-data-dir=" ++ profile_dir)
        ∷ (codes "--proxy-server=" ++ local_proxy)
        ∷ codes "--new-window"
        ∷ codes "--no-first-run"
        ∷ [];
    env = none;
  }

  -- `managedChromiumProfileDir`
  unfoldable pub chromium_profile_dir : Application → Option Text
  chromium_profile_dir app = elim host.user_config_dir [
    | none ↦ none
    | some root ↦ some (host.join (root ∷ codes "ProxyForApp" ∷ codes "profiles" ∷ app.id ∷ []))
  ]

  -- `managedVSCodeProfileDir`
  unfoldable pub vscode_profile_dir : Application → Option Text
  vscode_profile_dir app = elim host.user_config_dir [
    | none ↦ none
    | some root ↦ some (
        host.join (
          root
          ∷ codes "ProxyForApp"
          ∷ codes "profiles"
          ∷ app.id
          ∷ codes "vscode-user-data"
          ∷ codes "Code"
          ∷ []))
  ]

  profile_dir_of : NameFunctions → Application → Option Text
  unfolding chromium_profile_dir vscode_profile_dir
  profile_dir_of names app =
      if is_vscode (exe_name names app.path)
      then vscode_profile_dir app
      else chromium_profile_dir app

  built_with : LaunchCommand → Text → ℕ → Built
  built_with command profile_dir bridge = record {
    command = command;
    profile_dir = profile_dir;
    bridge_mode = true;
    bridge = some bridge;
  }

  -- The VS Code branch of `buildLaunchCommand`: an error closes the bridge.
  vscode_bridged :
      Text
      → ℕ
      → Result LaunchError LaunchCommand
      → LaunchState
      → Result LaunchError Built × LaunchState
  unfolding built_with
  vscode_bridged profile_dir bridge (err e) s =
      (err e, record s { apps = close_bridge (some bridge) s.apps })
  vscode_bridged profile_dir bridge (ok command) s = (ok (built_with command profile_dir bridge), s)

  -- The end of `buildLaunchCommand`, once the bridge is started.
  unfoldable pub build_bridged :
      NameFunctions → Application → Text → LaunchState → Result LaunchError Built × LaunchState
  unfolding build_vscode_command browser_command built_with vscode_bridged
  build_bridged names app profile_dir s =
      let local_proxy = codes "http://" ++ host.bridge_addr s.next_bridge in
      let s' = record s { next_bridge = suc s.next_bridge } in
      if is_vscode (exe_name names app.path)
      then vscode_bridged profile_dir s.next_bridge
          (build_vscode_command app (host.dir profile_dir) profile_dir local_proxy) s'
      else (
        ok (built_with (browser_command app profile_dir local_proxy) profile_dir s.next_bridge),
        s',
      )

  -- The bridge branch of `buildLaunchCommand`, from the profile folder on; `startBrowserProxyBridge`
  -- fails only if `net.Listen` does.
  build_at :
      NetFunctions
      → NameFunctions
      → Application
      → Option Text
      → LaunchState
      → Result LaunchError Built × LaunchState
  unfolding build_bridged
  build_at net names app none s = (err no_config_dir, s)
  build_at net names app (some profile_dir) s =
      if host.mkdir_all profile_dir
      then elim (parse_browser_proxy net app.proxy) [
        | err e ↦ (err (bad_proxy e), s)
        | ok settings ↦
            if host.listen then build_bridged names app profile_dir s else (err listen_failed, s)
      ]
      else (err mkdir_failed, s)

  -- `buildLaunchCommand`
  unfoldable pub build_launch_command :
      NetFunctions
      → NameFunctions
      → Application
      → LaunchState
      → Result LaunchError Built × LaunchState
  unfolding build_at profile_dir_of
  build_launch_command net names app s =
      if uses_proxy_bridge_mode (exe_name names app.path)
      then build_at net names app (profile_dir_of names app) s
      else (
        ok (record {
          command = record { path = app.path; args = []; env = none };
          profile_dir = [];
          bridge_mode = false;
          bridge = none;
        }),
        s,
      )
