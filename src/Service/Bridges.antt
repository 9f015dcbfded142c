-- ===== src/Service/Bridges.antt =====
-- What becomes of the bridge that is started for a browser or VS Code.
use mathlib.Core.Path.{subst}
use proxy_for_windows_app.Base.{
  ℕ, suc, ◌≡◌, refl, sym, ap, ◌∙◌, ◌⊎◌, inl, inr, Bool, true, Option, none, some, List, ◌∷◌, Result,
  ok, err, arith,
}
use proxy_for_windows_app.Config.{Application}
use proxy_for_windows_app.Apps.{
  Launched, uses_proxy_bridge_mode, exe_name, close_bridge, enter_launched,
}
use proxy_for_windows_app.Apps.Registry.{tracked, tracked-enter_self}
use proxy_for_windows_app.Launch.{
  LaunchError, LaunchState, LaunchCommand, Built, build_launch_command,
}
use proxy_for_windows_app.Launch.Processes.{PidQuery, wait_for_profile}
use proxy_for_windows_app.Launch.Command.{
  IsBridged, KeepsNothing, BridgedOrNothing, build_launch_command-BridgedOrNothing,
}
use proxy_for_windows_app.Service.{
  Service, World, LaunchRequest, Status, no_content, internal_error, connect, waited, entered,
  run_process, run_built, run_application, instance_of,
}

module _ {P D S : Type 0} (w : World P D S) (app : Application) (q : LaunchRequest)
    (s : Service P D S) where
  -- The application is tracked with the bridge that was started for it, and its process.
  abbrev pub IsLinked : Service P D S → Type 0
  IsLinked s' =
      (item : Launched) × (tracked app.id s'.launch.apps ≡ some item)
      × (item.bridge ≡ some s.launch.next_bridge)
      × (item.instance_id ≡ q.instance_id)

  -- The answer is 204 and the application is linked to its bridge, or it is 500 and the launched
  -- applications are as before, with no bridge left open.
  unfoldable pub LinkedOrNothing : Status × Service P D S → Type 0
  LinkedOrNothing (status, s') =
      ((status ≡ no_content) × IsLinked s')
      ⊎ ((status ≡ internal_error) × KeepsNothing w.host w.net w.names app s.launch s'.launch)

  waited-LinkedOrNothing :
      (item : Launched) (failed : Option LaunchError) (t : Service P D S)
      → item.app ≡ app
      → item.bridge ≡ some s.launch.next_bridge
      → item.instance_id ≡ q.instance_id
      → t.launch ≡ record s.launch { next_bridge = suc s.launch.next_bridge }
      → LinkedOrNothing (waited w item failed t)
  unfolding LinkedOrNothing waited entered close_bridge
  waited-LinkedOrNothing item (some x) t same_app bridge id e =
      inr (refl, inr (rw (bridge, e) refl))
  waited-LinkedOrNothing item none t same_app bridge id e =
      let here =
        subst (λ (a : Application). tracked a.id (enter_launched item t.launch.apps) ≡ some item)
          same_app (tracked-enter_self item t.launch.apps) in
      inl (refl, (item, here, bridge, id))

  connect-waited :
      (item : Launched) (rounds : List (PidQuery × Bool)) (t : Service P D S)
      → item.chromium ≡ true
      → connect w item rounds t ≡ waited w item (wait_for_profile rounds none) t
  unfolding connect
  connect-waited item rounds t mode = rw mode refl

  run_process-LinkedOrNothing :
      (built : Built) (pid : ℕ) (t : Service P D S)
      → IsBridged w.host w.net w.names app s.launch built t.launch
      → LinkedOrNothing (run_process w app q built (some pid) t)
  unfolding run_process instance_of
  run_process-LinkedOrNothing built pid t (bridge, mode, path, arg, e) =
      let item = instance_of w app built pid q.instance_id in
      let t' = record t { started = (pid, built.command) ∷ t.started } in
      subst LinkedOrNothing (sym (connect-waited item q.rounds t' mode))
        (waited-LinkedOrNothing item (wait_for_profile q.rounds none) t' refl bridge refl e)

  Nothing-Linked :
      {l : LaunchState}
      → KeepsNothing w.host w.net w.names app s.launch l
      → LinkedOrNothing (internal_error, record s { launch = l })
  unfolding LinkedOrNothing
  Nothing-Linked kept = inr (refl, kept)

  run_built-LinkedOrNothing :
      (r : Result LaunchError Built × LaunchState)
      → ((command : LaunchCommand) → (pid : ℕ) × (q.start_process command ≡ some pid))
      → BridgedOrNothing w.host w.net w.names app s.launch r
      → LinkedOrNothing (run_built w app q r.0 (record s { launch = r.1 }))
  unfolding run_built BridgedOrNothing
  run_built-LinkedOrNothing (err e, l) starts kept = Nothing-Linked kept
  run_built-LinkedOrNothing (ok built, l) starts bridged =
      let (pid, e) = starts built.command in
      subst (λ o. LinkedOrNothing (run_process w app q built o (record s { launch = l }))) (sym e)
        (run_process-LinkedOrNothing built pid (record s { launch = l }) bridged)

  -- If starting a process never fails, then `handleLaunchApplication` for a browser or VS Code, from
  -- `buildLaunchCommand` on, either answers 204 and tracks the application with the bridge that was started
  -- for it, or answers 500, and leaves the launched applications as they are at that point and the bridge
  -- that it started closed.
  pub run_application-LinkedOrNothing :
      uses_proxy_bridge_mode (exe_name w.names app.path) ≡ true
      → ((command : LaunchCommand) → (pid : ℕ) × (q.start_process command ≡ some pid))
      → LinkedOrNothing (run_application w app q s)
  unfolding run_application
  run_application-LinkedOrNothing bridged starts =
      run_built-LinkedOrNothing (build_launch_command w.host w.net w.names app s.launch) starts
        (build_launch_command-BridgedOrNothing w.host w.net w.names app s.launch bridged)

  run_built-start_failed :
      (r : Result LaunchError Built × LaunchState) (built : Built)
      → r.0 ≡ ok built
      → q.start_process built.command ≡ none
      → run_built w app q r.0 (record s { launch = r.1 })
        ≡ (internal_error, record s { launch = r.1 })
  unfolding run_built run_process
  run_built-start_failed (err e, l) built is_built fails = absurd (ground arith)
  run_built-start_failed (ok b, l) built is_built fails =
      let stopped : q.start_process b.command ≡ none = ground arith in
      subst
        (λ o.
          run_process w app q b o (record s { launch = l })
          ≡ (internal_error, record s { launch = l }))
        (sym stopped) refl

  bridge-started :
      (r : Result LaunchError Built × LaunchState) (built : Built)
      → r.0 ≡ ok built
      → BridgedOrNothing w.host w.net w.names app s.launch r
      → r.1 ≡ record s.launch { next_bridge = suc s.launch.next_bridge }
  unfolding BridgedOrNothing
  bridge-started (err e, l) built is_built kept = absurd (ground arith)
  bridge-started (ok b, l) built is_built (bridge, mode, path, arg, e) = e

  -- If the process of a browser cannot be started, the answer is 500, but the bridge that was started for it
  -- is neither closed nor held by any launched application.
  pub run_application-keeps_bridge :
      (built : Built)
      → uses_proxy_bridge_mode (exe_name w.names app.path) ≡ true
      → (build_launch_command w.host w.net w.names app s.launch).0 ≡ ok built
      → q.start_process built.command ≡ none
      → run_application w app q s ≡ (
        internal_error,
        record s { launch = record s.launch { next_bridge = suc s.launch.next_bridge } },
      )
  unfolding run_application
  run_application-keeps_bridge built bridged is_built fails =
      let r = build_launch_command w.host w.net w.names app s.launch in
      let linked =
        build_launch_command-BridgedOrNothing w.host w.net w.names app s.launch bridged in
      run_built-start_failed r built is_built fails
      ∙ ap (λ l. (internal_error, record s { launch = l })) (bridge-started r built is_built linked)
