-- ===== src/Service/Ready.antt =====
-- The flag `proxyEngineRunning`, the engine and the network over sequences of requests.
use proxy_for_windows_app.Base.{
  ℕ, ◌≡◌, ◌∙◌, Bool, true, false, not, ◌&&◌, Option, none, some, List, [], ◌∷◌, Result, ok, err,
  arith, is_empty, if_intro,
}
use proxy_for_windows_app.Base.Text.{Text, trim_space}
use proxy_for_windows_app.Network.{Net, NetError, ensure_bypass_route}
use proxy_for_windows_app.Network.Bypass.{IsCovered, ensure_bypass_route-IsCovered}
use proxy_for_windows_app.Address.{normalized_proxy_or_raw}
use proxy_for_windows_app.Config.{Application, ProxyConfig}
use proxy_for_windows_app.Apps.{
  Launched, uses_proxy_bridge_mode, is_chromium_browser, is_vscode, exe_name,
}
use proxy_for_windows_app.Engine.{EngineError, EngineState, set_pid_proxy}
use proxy_for_windows_app.Engine.Wired.{
  IsWired, stop-pid_router, set_pid_proxy-IsWired, set_pid_proxy-pid_router,
}
use proxy_for_windows_app.Launch.{build_launch_command, Built, LaunchError}
use proxy_for_windows_app.Launch.Processes.{wait_for_profile, PidQuery, ProfileAnswers}
use proxy_for_windows_app.Service.{
  Event, start_request, stop_request, launch_request, application_ended, serve, serve_all, waited,
  routed, run_process, launch_decoded, instance_of, profile_ready, Service, World, LaunchRequest,
  handle_launch, start_engine, configured, autostarted, autostart, bypass, prepare_engine,
  prepare_profile, connect, entered, run_built, run_application, profiled, prepared,
  launch_application,
}
use proxy_for_windows_app.Service.Started.{
  EngineReady, IsReady, LeavesReady, start_engine-EngineReady, idle-off, handle_start-IsReady,
  handle_stop-IsReady,
}

module _ {P D S : Type 0} (w : World P D S) where
  bypass-IsReady : (proxy : Text) (s : Service P D S) → IsReady s → IsReady (bypass w proxy s).1
  unfolding bypass
  bypass-IsReady proxy s (ready, covered) =
      (ready, ensure_bypass_route-IsCovered w.sys w.net proxy s.net covered)

  configured-IsReady :
      (r : Result NetError (Unit {0}) × Net) (e : EngineState P D S) (s : Service P D S)
      → s.running ≡ false
      → IsWired e
      → IsCovered r.1
      → IsReady (configured w r e s).1
  unfolding configured
  configured-IsReady (err x, n) e s idle wired covered =
      (rw idle (stop-pid_router w.parts e), covered)
  configured-IsReady (ok x, n) e s idle wired covered = (wired, covered)

  autostarted-IsReady :
      (proxy : Text) (r : Bool × EngineState P D S) (s : Service P D S)
      → s.running ≡ false
      → IsReady s
      → EngineReady r.0 r.1
      → IsReady (autostarted w proxy r s).1
  unfolding autostarted
  autostarted-IsReady proxy (false, e) s idle (_, covered) ready = (rw idle ready, covered)
  autostarted-IsReady proxy (true, e) s idle (_, covered) ready =
      configured-IsReady (ensure_bypass_route w.sys w.net proxy s.net) e s idle ready
        (ensure_bypass_route-IsCovered w.sys w.net proxy s.net covered)

  prepare_engine-IsReady :
      (bridge_app : Bool) (device proxy : Text) (s : Service P D S)
      → IsReady s
      → IsReady (prepare_engine w bridge_app device proxy s).1
  unfolding prepare_engine autostart
  prepare_engine-IsReady bridge_app device proxy s h =
      if_intro LeavesReady (not bridge_app && not s.running) _ _
        (λ idle.
          autostarted-IsReady proxy (start_engine w device proxy s.engine) s (ground arith) h
            (start_engine-EngineReady w device proxy s.engine (idle-off w s (ground arith) h)))
        (λ _.
          if_intro LeavesReady (not bridge_app) _ _ (λ _. bypass-IsReady proxy s h)
            (λ _. if_intro LeavesReady s.running _ _ (λ _. bypass-IsReady proxy s h) (λ _. h)))

  prepare_profile-IsReady :
      (app : Application) (q : ProfileAnswers) (s : Service P D S)
      → IsReady s
      → IsReady (prepare_profile w app q s).1
  unfolding prepare_profile profile_ready
  prepare_profile-IsReady app q s h =
      if_intro LeavesReady
        (is_chromium_browser (exe_name w.names app.path)
          && not (is_vscode (exe_name w.names app.path)))
        _ _ (λ _. h) (λ _. h)

  set_pid_proxy-EngineReady :
      (running : Bool) (pid : ℕ) (url label : Text) (e : EngineState P D S)
      → EngineReady running e
      → EngineReady running (set_pid_proxy w.parts pid url label e).1
  set_pid_proxy-EngineReady true pid url label e h = set_pid_proxy-IsWired w.parts e pid url label h
  set_pid_proxy-EngineReady false pid url label e h =
      set_pid_proxy-pid_router w.parts e pid url label ∙ h

  waited-IsReady :
      (item : Launched) (r : Option LaunchError) (s : Service P D S)
      → IsReady s
      → IsReady (waited w item r s).1
  unfolding waited entered
  waited-IsReady item (some x) s h = h
  waited-IsReady item none s h = h

  routed-IsReady :
      (item : Launched) (r : Result EngineError (Unit {0}) × EngineState P D S) (s : Service P D S)
      → EngineReady s.running r.1
      → IsCovered s.net
      → IsReady (routed w item r s).1
  unfolding routed entered
  routed-IsReady item (err x, e) s ready covered = (ready, covered)
  routed-IsReady item (ok _, e) s ready covered = (ready, covered)

  connect-IsReady :
      (item : Launched) (rounds : List (PidQuery × Bool)) (s : Service P D S)
      → IsReady s
      → IsReady (connect w item rounds s).1
  unfolding connect
  connect-IsReady item rounds s h =
      let proxy = normalized_proxy_or_raw w.net.query_escape item.app.proxy in
      if_intro LeavesReady item.chromium _ _
        (λ _. waited-IsReady item (wait_for_profile rounds none) s h)
        (λ _.
          routed-IsReady item (set_pid_proxy w.parts item.pid proxy item.app.name s.engine) s
            (set_pid_proxy-EngineReady s.running item.pid proxy item.app.name s.engine h.0) h.1)

  run_process-IsReady :
      (app : Application) (q : LaunchRequest) (built : Built) (started : Option ℕ)
      (s : Service P D S)
      → IsReady s
      → IsReady (run_process w app q built started s).1
  unfolding run_process
  run_process-IsReady app q built none s h = h
  run_process-IsReady app q built (some pid) s h =
      connect-IsReady (instance_of w app built pid q.instance_id) q.rounds _ h

  run_built-IsReady :
      (app : Application) (q : LaunchRequest) (built : Result LaunchError Built) (s : Service P D S)
      → IsReady s
      → IsReady (run_built w app q built s).1
  unfolding run_built
  run_built-IsReady app q (err x) s h = h
  run_built-IsReady app q (ok built) s h =
      run_process-IsReady app q built (q.start_process built.command) s h

  profiled-IsReady :
      (app : Application) (q : LaunchRequest) (r : Bool × Service P D S)
      → IsReady r.1
      → IsReady (profiled w app q r).1
  unfolding profiled run_application
  profiled-IsReady app q (false, s) h = h
  profiled-IsReady app q (true, s) h =
      let (built, l) = build_launch_command w.host w.net w.names app s.launch in
      run_built-IsReady app q built (record s { launch = l }) h

  prepared-IsReady :
      (app : Application) (q : LaunchRequest) (r : Bool × Service P D S)
      → IsReady r.1
      → IsReady (prepared w app q r).1
  unfolding prepared
  prepared-IsReady app q (false, s) h = h
  prepared-IsReady app q (true, s) h =
      profiled-IsReady app q (prepare_profile w app q.profile s)
        (prepare_profile-IsReady app q.profile s h)

  launch_decoded-IsReady :
      (config : ProxyConfig) (q : LaunchRequest) (decoded : Option Application) (s : Service P D S)
      → IsReady s
      → IsReady (launch_decoded w config q decoded s).1
  unfolding launch_decoded launch_application
  launch_decoded-IsReady config q none s h = h
  launch_decoded-IsReady config q (some app) s h =
      let bridged = uses_proxy_bridge_mode (exe_name w.names app.path) in
      if_intro LeavesReady (is_empty app.path) _ _ (λ _. h)
        (λ _.
          if_intro LeavesReady (is_empty (trim_space app.proxy)) _ _ (λ _. h)
            (λ _.
              prepared-IsReady app q (prepare_engine w bridged config.device app.proxy s)
                (prepare_engine-IsReady bridged config.device app.proxy s h)))

  pub handle_launch-IsReady :
      (config : ProxyConfig) (q : LaunchRequest) (s : Service P D S)
      → IsReady s
      → IsReady (handle_launch w config q s).1
  unfolding handle_launch
  handle_launch-IsReady config q s h =
      if_intro LeavesReady q.is_post _ _ (λ _. launch_decoded-IsReady config q q.decoded s h)
        (λ _. h)

  serve-IsReady : (event : Event) (s : Service P D S) → IsReady s → IsReady (serve w event s)
  unfolding serve
  serve-IsReady (start_request is_post config) s h = handle_start-IsReady w is_post config s h
  serve-IsReady (stop_request is_post left) s h = handle_stop-IsReady w is_post left s h
  serve-IsReady (launch_request config q) s h = handle_launch-IsReady config q s h
  serve-IsReady (application_ended item) s h = h

  -- Over every sequence of requests, whatever they answer and whatever fails: while the engine counts as
  -- running, the tunnel dials through the router that `SetPIDProxy` changes, and otherwise there is no
  -- PID router; and a recorded tunnel state means that its routes stand.
  pub serve_all-IsReady :
      (events : List Event) (s : Service P D S) → IsReady s → IsReady (serve_all w events s)
  unfolding serve_all
  serve_all-IsReady [] s h = h
  serve_all-IsReady (event ∷ events) s h =
      serve_all-IsReady events (serve w event s) (serve-IsReady event s h)
