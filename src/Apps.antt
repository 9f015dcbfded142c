-- ===== src/Apps.antt =====
-- The launched applications of netmonitor-gui/main.go: the map `launchedApps`, the bridges that its
-- entries hold, and `shutdownLaunchedApplications`. A bridge is a number, and so is a process.
pub mod Registry
pub mod Shutdown
mod Tests
use proxy_for_windows_app.Base.{
  ℕ, Bool, true, false, not, ◌&&◌, ◌||◌, Option, none, some, List, [], ◌∷◌, ◌++◌, map, Result, ok,
  err, if◌then◌else◌, any, keep, is_empty,
}
use proxy_for_windows_app.Base.Text.{Text, codes, same, Text-discrete}
use proxy_for_windows_app.Base.Dict.{Dict, lookup, insert, erase}
use proxy_for_windows_app.Base.FilePath.{base_name}
use proxy_for_windows_app.Config.{Application}

-- `launchedApplication`; `pid` is that of `Cmd.Process`.
pub record Launched : Type 0 where
  pub instance_id : Text
  pub app : Application
  pub pid : ℕ
  pub profile_dir : Text
  pub chromium : Bool
  pub keep_bridge_alive : Bool
  pub bridge : Option ℕ

-- `launchedApps`, and the bridges that were closed, the newest first.
pub record Apps : Type 0 where
  pub launched : Dict Text Launched
  pub closed : List ℕ

-- `strings.ToLower`, and the length of `filepath.VolumeName`.
pub record NameFunctions : Type 0 where
  pub to_lower : Text → Text
  pub volume_len : Text → ℕ

-- `strings.ToLower(filepath.Base(path))`
unfoldable pub exe_name : NameFunctions → Text → Text
exe_name names path = names.to_lower (base_name names.volume_len path)

unfoldable pub is_chromium_browser : Text → Bool
is_chromium_browser name = any (same name) (
    codes "chrome.exe"
    ∷ codes "msedge.exe"
    ∷ codes "brave.exe"
    ∷ codes "browser.exe"
    ∷ codes "opera.exe"
    ∷ codes "vivaldi.exe"
    ∷ codes "chromium.exe"
    ∷ codes "arc.exe"
    ∷ [])

unfoldable pub is_vscode : Text → Bool
is_vscode name = same name (codes "code.exe")

unfoldable pub uses_proxy_bridge_mode : Text → Bool
unfolding is_chromium_browser is_vscode
uses_proxy_bridge_mode name = is_chromium_browser name || is_vscode name

-- `Bridge.Close()`, if there is a bridge.
unfoldable pub close_bridge : Option ℕ → Apps → Apps
close_bridge none a = a
close_bridge (some b) a = record a { closed = b ∷ a.closed }

-- `removeLaunchedApplication`
unfoldable pub remove_launched : Launched → Apps → Apps
unfolding close_bridge
remove_launched item a = elim (lookup Text-discrete item.app.id a.launched) [
  | none ↦ a
  | some current ↦
      if same current.instance_id item.instance_id
      then close_bridge item.bridge
          (record a { launched = erase Text-discrete item.app.id a.launched })
      else a
]

-- How `handleLaunchApplication` enters an instance.
unfoldable pub enter_launched : Launched → Apps → Apps
unfolding close_bridge
enter_launched item a =
    let put =
      λ (b : Apps). record b { launched = insert Text-discrete item.app.id item b.launched } in
    elim (lookup Text-discrete item.app.id a.launched) [
      | none ↦ put a
      | some previous ↦
          if same previous.instance_id item.instance_id
          then put a
          else put (close_bridge previous.bridge a)
    ]

unfoldable pub has_launched : Apps → Bool
has_launched a = not (is_empty a.launched)

-- A call of `taskkill`, with `/F` or without.
pub record Kill : Type 0 where
  pub force : Bool
  pub pid : ℕ

abbrev pub entries : Dict Text Launched → List Launched
entries = map λ (_, item). item

abbrev pub runs_vscode : NameFunctions → Launched → Bool
runs_vscode names item = is_vscode (exe_name names item.app.path)

module _ (names : NameFunctions)
    (chromium_pids : Bool → Launched → Result (Unit {0}) (List ℕ)) where
  -- `rootApplicationPIDs`; the Boolean tells the query before a graceful request (`false`) from the
  -- later one before a forced one.
  unfoldable pub root_pids : Bool → Launched → List ℕ
  root_pids late item = elim item.chromium [
    | false ↦ item.pid ∷ []
    | true ↦ elim (chromium_pids late item) [
      | err _ ↦ item.pid ∷ []
      | ok [] ↦ item.pid ∷ []
      | ok (pid ∷ pids) ↦ pid ∷ []
    ]
  ]

  -- The loops over `items` that call `taskkill`.
  unfoldable pub kills : Bool → List Launched → List Kill
  kills force [] = []
  kills force (item ∷ items) =
      map (λ pid. record { force = force; pid = pid }) (root_pids force item) ++ kills force items

  -- `shutdownLaunchedApplications`: `table` is what the first pass sees, `polls` what the loop of five
  -- seconds sees in turn, and `last` what the second pass sees; in between, the monitors of the
  -- applications change the map.
  unfoldable pub shutdown :
      Dict Text Launched → List (Dict Text Launched) → Dict Text Launched → List Kill
  unfolding kills
  shutdown table polls last =
      let items = keep (λ item. not (runs_vscode names item)) (entries table) in
      if is_empty items
      then []
      else kills false items ++ (if any is_empty polls then [] else kills true (entries last))
