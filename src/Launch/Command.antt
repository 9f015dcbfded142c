-- ===== src/Launch/Command.antt =====
-- What `buildLaunchCommand` returns, and what becomes of the bridge that it starts.
use proxy_for_windows_app.Base.{
  suc, ◌≡◌, refl, ◌⊎◌, inl, inr, true, not, Option, none, some, List, [], ◌∷◌, ◌++◌, Result, ok,
  err, if◌then◌else◌, In, if_intro,
}
use proxy_for_windows_app.Base.Text.{Text, codes}
use proxy_for_windows_app.Address.{NetFunctions, parse_browser_proxy}
use proxy_for_windows_app.Config.{Application}
use proxy_for_windows_app.Apps.{
  NameFunctions, exe_name, is_vscode, uses_proxy_bridge_mode, close_bridge,
}
use proxy_for_windows_app.Launch.{
  Host, LaunchError, LaunchState, LaunchCommand, Built, build_launch_command, build_bridged,
  build_vscode_command, browser_command, vscode_command, built_with, profile_dir_of, written,
  vscode_bridged, build_at, bad_proxy, mkdir_failed, listen_failed, Settings, with_proxy,
}

module _ (host : Host) (net : NetFunctions) (names : NameFunctions) (app : Application)
    (s : LaunchState) where
  -- The program is told to use the bridge that was started for it, and nothing else has changed.
  abbrev pub IsBridged : Built → LaunchState → Type 0
  IsBridged built s' =
      (built.bridge ≡ some s.next_bridge)
      × (built.bridge_mode ≡ true)
      × (built.command.path ≡ app.path)
      × In (codes "--proxy-server=" ++ codes "http://" ++ host.bridge_addr s.next_bridge)
          built.command.args
      × (s' ≡ record s { next_bridge = suc s.next_bridge })

  -- Nothing has changed, but perhaps for a bridge that was started and closed again.
  abbrev pub KeepsNothing : LaunchState → Type 0
  KeepsNothing s' =
      (s' ≡ s)
      ⊎ (s' ≡ record {
        apps = record s.apps { closed = s.next_bridge ∷ s.apps.closed };
        next_bridge = suc s.next_bridge;
      })

  unfoldable pub BridgedOrNothing : Result LaunchError Built × LaunchState → Type 0
  BridgedOrNothing (ok built, s') = IsBridged built s'
  BridgedOrNothing (err e, s') = KeepsNothing s'

  -- A command that was built runs the application with the local proxy.
  RunsWith : Text → Result LaunchError LaunchCommand → Type 0
  RunsWith proxy (err e) = Unit
  RunsWith proxy (ok command) =
      (command.path ≡ app.path) × In (codes "--proxy-server=" ++ proxy) command.args

  RunsWith-err : (proxy : Text) (e : LaunchError) → RunsWith proxy (err e)
  unfolding RunsWith
  RunsWith-err proxy e = tt

  vscode_command-RunsWith :
      (root dir proxy : Text) → RunsWith proxy (ok (vscode_command host app root dir proxy))
  unfolding RunsWith vscode_command
  vscode_command-RunsWith root dir proxy = (refl, inr (inr (inl refl)))

  written-RunsWith :
      (root dir proxy path : Text) (settings : Result LaunchError Settings)
      → RunsWith proxy (written host app root dir proxy path settings)
  unfolding written
  written-RunsWith root dir proxy path (err e) = RunsWith-err proxy e
  written-RunsWith root dir proxy path (ok settings) =
      if_intro (RunsWith proxy) (host.write_settings path (with_proxy proxy settings)) _ _
        (λ _. vscode_command-RunsWith root dir proxy) (λ _. RunsWith-err proxy _)

  build_vscode_command-RunsWith :
      (root dir proxy : Text) → RunsWith proxy (build_vscode_command host app root dir proxy)
  unfolding build_vscode_command
  build_vscode_command-RunsWith root dir proxy =
      let made = λ (parts : List Text). not (host.mkdir_all (host.join parts)) in
      if_intro (RunsWith proxy) (made (root ∷ codes "extensions" ∷ [])) _ _
        (λ _. RunsWith-err proxy mkdir_failed)
        (λ _.
          if_intro (RunsWith proxy) (made (root ∷ codes "codex-home" ∷ [])) _ _
            (λ _. RunsWith-err proxy mkdir_failed)
            (λ _.
              if_intro (RunsWith proxy) (made (dir ∷ codes "User" ∷ [])) _ _
                (λ _. RunsWith-err proxy mkdir_failed) (λ _. written-RunsWith root dir proxy _ _)))

  vscode_bridged-BridgedOrNothing :
      (profile_dir : Text) (command : Result LaunchError LaunchCommand)
      → RunsWith (codes "http://" ++ host.bridge_addr s.next_bridge) command
      → BridgedOrNothing (
          vscode_bridged host profile_dir s.next_bridge command
            (record s { next_bridge = suc s.next_bridge }))
  unfolding vscode_bridged close_bridge built_with RunsWith BridgedOrNothing
  vscode_bridged-BridgedOrNothing profile_dir (err e) runs = inr refl
  vscode_bridged-BridgedOrNothing profile_dir (ok command) (path, arg) =
      (refl, refl, path, arg, refl)

  BridgedOrNothing-err : (e : LaunchError) → BridgedOrNothing (err e, s)
  unfolding BridgedOrNothing
  BridgedOrNothing-err e = inl refl

  browser-BridgedOrNothing :
      (profile_dir : Text)
      → BridgedOrNothing (
        ok (
            built_with host
              (browser_command host app profile_dir
                (codes "http://" ++ host.bridge_addr s.next_bridge))
              profile_dir
              s.next_bridge),
        record s { next_bridge = suc s.next_bridge },
      )
  unfolding BridgedOrNothing browser_command built_with
  browser-BridgedOrNothing profile_dir = (refl, refl, refl, inr (inl refl), refl)

  build_bridged-BridgedOrNothing :
      (profile_dir : Text) → BridgedOrNothing (build_bridged host names app profile_dir s)
  unfolding build_bridged
  build_bridged-BridgedOrNothing profile_dir =
      if_intro BridgedOrNothing (is_vscode (exe_name names app.path)) _ _
        (λ _.
          vscode_bridged-BridgedOrNothing profile_dir _
            (build_vscode_command-RunsWith _ profile_dir _))
        (λ _. browser-BridgedOrNothing profile_dir)

  build_at-BridgedOrNothing :
      (dir : Option Text) → BridgedOrNothing (build_at host net names app dir s)
  unfolding build_at
  build_at-BridgedOrNothing none = BridgedOrNothing-err _
  build_at-BridgedOrNothing (some dir) =
      if_intro BridgedOrNothing (host.mkdir_all dir) _ _
        (λ _.
          elim (parse_browser_proxy net app.proxy)
            as (λ r. BridgedOrNothing (elim r [
              | err e ↦ (err (bad_proxy e), s)
              | ok settings ↦
                  if host.listen then build_bridged host names app dir s else (err listen_failed, s)
            ])) [
              | err e ↦ BridgedOrNothing-err _
              | ok settings ↦
                  if_intro BridgedOrNothing host.listen _ _
                    (λ _. build_bridged-BridgedOrNothing dir) (λ _. BridgedOrNothing-err _)
            ])
        (λ _. BridgedOrNothing-err _)

  -- For a browser or VS Code, `buildLaunchCommand` either returns a command that runs the application with
  -- the address of a new bridge as its proxy, and this bridge; or it fails, and a bridge that it started
  -- is closed. The launched applications stay as they are.
  pub build_launch_command-BridgedOrNothing :
      uses_proxy_bridge_mode (exe_name names app.path) ≡ true
      → BridgedOrNothing (build_launch_command host net names app s)
  unfolding build_launch_command
  build_launch_command-BridgedOrNothing bridged =
      rw bridged (build_at-BridgedOrNothing (profile_dir_of host names app))
