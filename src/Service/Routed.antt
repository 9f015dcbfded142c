-- ===== src/Service/Routed.antt =====
-- What a launch that answers 204 has done for an application without a bridge.
use mathlib.Core.Path.{subst}
use proxy_for_windows_app.Base.{
  ℕ, ◌≡◌, refl, sym, Bool, true, false, not, ◌&&◌, Option, none, some, [], ◌∷◌, Result, ok, err,
  arith, is_ok-ok, is_empty, if_intro,
}
use proxy_for_windows_app.Base.Text.{Text, trim_space}
use proxy_for_windows_app.Address.{proxy_host, normalized_proxy_or_raw}
use proxy_for_windows_app.Network.{Net, NetError, ensure_bypass_route}
use proxy_for_windows_app.Network.Routes.{default_up, route_up}
use proxy_for_windows_app.Network.Bypass.{
  IsCovered, Covers-Records, Records, ensure_bypass_route-IsCovered, ensure_bypass_route-Records,
}
use proxy_for_windows_app.Config.{Application, ProxyConfig}
use proxy_for_windows_app.Apps.{uses_proxy_bridge_mode, is_chromium_browser, is_vscode, exe_name}
use proxy_for_windows_app.Apps.Registry.{tracked, tracked-enter_self}
use proxy_for_windows_app.Router.{RouterError, OwnerInfo}
use proxy_for_windows_app.Engine.{EngineError, EngineState, set_pid_proxy, tunnel_pick}
use proxy_for_windows_app.Engine.Wired.{IsWired, set_pid_proxy-routes, set_pid_proxy-ok}
use proxy_for_windows_app.Launch.{
  LaunchError, LaunchCommand, LaunchState, Built, build_launch_command,
}
use proxy_for_windows_app.Launch.Processes.{ProfileAnswers}
use proxy_for_windows_app.Service.{
  Service, World, LaunchRequest, Status, no_content, handle_launch, start_engine, configured,
  autostarted, autostart, bypass, prepare_engine, prepare_profile, profile_ready, connect, entered,
  routed, run_process, run_built, run_application, profiled, prepared, launch_application,
  launch_decoded, instance_of,
}
use proxy_for_windows_app.Service.Started.{EngineReady, IsReady, start_engine-EngineReady, idle-off}

-- What `buildLaunchCommand` returns without a bridge.
abbrev pub plain_command : Application → LaunchCommand
plain_command app = record { path = app.path; args = []; env = none }

abbrev pub plain_built : Application → Built
plain_built app = record {
  command = plain_command app;
  profile_dir = [];
  bridge_mode = false;
  bridge = none;
}

module _ {P D S : Type 0} (w : World P D S) where
  -- The application runs as process `pid`, is tracked, and the connections that the resolver finds to be
  -- owned by it are dialled through its proxy, whose host is reached past the tunnel, while all other traffic
  -- enters the tunnel.
  pub record IsRouted (parent_pid : ℕ → ℕ → Result RouterError ℕ) (app : Application)
      (q : LaunchRequest) (s : Service P D S) : Type 0 where
    pub pid : ℕ
    pub proxied : P
    pub host : Text
    pub process_started : q.start_process (plain_command app) ≡ some pid
    pub proxy_parsed :
        w.parts.parse_proxy (normalized_proxy_or_raw w.net.query_escape app.proxy) ≡ some proxied
    pub host_found : proxy_host w.net app.proxy ≡ ok host
    pub now_running : s.running ≡ true
    pub now_tracked :
        tracked app.id s.launch.apps ≡ some (instance_of w app (plain_built app) pid q.instance_id)
    pub dialled :
        (owner : OwnerInfo)
        → owner.pid ≡ pid
        → tunnel_pick w.parts parent_pid s.engine (ok owner) ≡ some proxied
    pub default_stands : default_up s.net.trace ≡ true
    pub bypass_stands : route_up host s.net.trace ≡ true

  -- The engine runs and the proxy's host is recorded.
  abbrev IsOn : Text → Service P D S → Type 0
  IsOn proxy s =
      (s.running ≡ true)
      × IsReady s
      × (host : Text) × (proxy_host w.net proxy ≡ ok host)
      × Records host s.net.network_state

  -- If the call succeeded, the program is on.
  abbrev TurnsOn : Text → Bool × Service P D S → Type 0
  TurnsOn proxy o = o.0 ≡ true → IsOn proxy o.1

  configured-IsOn :
      (proxy : Text) (r : Result NetError (Unit {0}) × Net) (e : EngineState P D S)
      (s : Service P D S)
      → IsWired e
      → IsCovered r.1
      → (r.0 ≡ ok tt
          → (host : Text) × (proxy_host w.net proxy ≡ ok host) × Records host r.1.network_state)
      → TurnsOn proxy (configured w r e s)
  unfolding configured
  configured-IsOn proxy (err x, n) e s wired covered recorded done = absurd (ground arith)
  configured-IsOn proxy (ok _, n) e s wired covered recorded done =
      let (host, found, r) = recorded refl in (refl, (wired, covered), host, found, r)

  autostarted-IsOn :
      (proxy : Text) (r : Bool × EngineState P D S) (s : Service P D S)
      → EngineReady r.0 r.1
      → IsCovered s.net
      → TurnsOn proxy (autostarted w proxy r s)
  unfolding autostarted
  autostarted-IsOn proxy (false, e) s ready covered done = absurd (ground arith)
  autostarted-IsOn proxy (true, e) s ready covered done =
      configured-IsOn proxy (ensure_bypass_route w.sys w.net proxy s.net) e s ready
        (ensure_bypass_route-IsCovered w.sys w.net proxy s.net covered)
        (ensure_bypass_route-Records w.sys w.net proxy s.net) done

  bypass-IsOn :
      (proxy : Text) (s : Service P D S)
      → s.running ≡ true
      → IsReady s
      → TurnsOn proxy (bypass w proxy s)
  unfolding bypass
  bypass-IsOn proxy s on (ready, covered) done =
      let good = is_ok-ok (ensure_bypass_route w.sys w.net proxy s.net).0 done in
      let (host, found, r) = ensure_bypass_route-Records w.sys w.net proxy s.net good in
      (on, (ready, ensure_bypass_route-IsCovered w.sys w.net proxy s.net covered), host, found, r)

  prepare_engine-IsOn :
      (device proxy : Text) (s : Service P D S)
      → IsReady s
      → TurnsOn proxy (prepare_engine w false device proxy s)
  unfolding prepare_engine autostart
  prepare_engine-IsOn device proxy s h =
      if_intro (TurnsOn proxy) (not s.running) _ _
        (λ idle.
          autostarted-IsOn proxy (start_engine w device proxy s.engine) s
            (start_engine-EngineReady w device proxy s.engine (idle-off w s (ground arith) h)) h.1)
        (λ on. bypass-IsOn proxy s (ground arith) h)

  prepare_profile-IsOn :
      (app : Application) (answers : ProfileAnswers) (s : Service P D S)
      → IsOn app.proxy s
      → IsOn app.proxy (prepare_profile w app answers s).1
  unfolding prepare_profile profile_ready
  prepare_profile-IsOn app answers s h =
      if_intro (λ (o : Bool × Service P D S). IsOn app.proxy o.1)
        (is_chromium_browser (exe_name w.names app.path)
          && not (is_vscode (exe_name w.names app.path)))
        _ _ (λ _. h) (λ _. h)

module _ {P D S : Type 0} (w : World P D S) (parent_pid : ℕ → ℕ → Result RouterError ℕ)
    (app : Application) (q : LaunchRequest) where
  -- If the handler answers 204, the application is routed.
  abbrev Routes : Status × Service P D S → Type 0
  Routes o = o.0 ≡ no_content → IsRouted w parent_pid app q o.1

  routed-IsRouted :
      (pid : ℕ) (r : Result EngineError (Unit {0}) × EngineState P D S) (s : Service P D S)
      → q.start_process (plain_command app) ≡ some pid
      → IsOn w app.proxy s
      → (r.0 ≡ ok tt
          → (x : P) × (w.parts.parse_proxy (normalized_proxy_or_raw w.net.query_escape app.proxy)
              ≡ some x)
            × ((owner : OwnerInfo)
                → owner.pid ≡ pid
                → tunnel_pick w.parts parent_pid r.1 (ok owner) ≡ some x))
      → Routes (routed w (instance_of w app (plain_built app) pid q.instance_id) r s)
  unfolding routed entered instance_of
  routed-IsRouted pid (err x, e) s launched is_on routes done = absurd (ground arith)
  routed-IsRouted pid (ok _, e) s launched (on, (ready, covered), host, found, recorded) routes
        done =
      let (x, parsed, dialled) = routes refl in
      let (default_stands, bypass_stands) =
        Covers-Records s.net.network_state s.net.trace host covered recorded in
      record {
        pid = pid;
        proxied = x;
        host = host;
        process_started = launched;
        proxy_parsed = parsed;
        host_found = found;
        now_running = on;
        now_tracked =
            tracked-enter_self (instance_of w app (plain_built app) pid q.instance_id)
              s.launch.apps;
        dialled = dialled;
        default_stands = default_stands;
        bypass_stands = bypass_stands;
      }

  connect-IsRouted :
      (pid : ℕ) (s : Service P D S)
      → q.start_process (plain_command app) ≡ some pid
      → IsOn w app.proxy s
      → Routes (connect w (instance_of w app (plain_built app) pid q.instance_id) q.rounds s)
  unfolding connect instance_of
  connect-IsRouted pid s launched (on, (ready, covered), host, found, recorded) =
      let url = normalized_proxy_or_raw w.net.query_escape app.proxy in
      let wired : IsWired s.engine = subst (λ b. EngineReady b s.engine) on ready in
      routed-IsRouted pid (set_pid_proxy w.parts pid url app.name s.engine) s launched
        (on, (ready, covered), host, found, recorded)
        (λ done.
          let (x, parsed) = set_pid_proxy-ok w.parts s.engine pid url app.name done in
          (
            x,
            parsed,
            λ owner owned.
                (set_pid_proxy-routes w.parts parent_pid s.engine pid url app.name x owner wired
                  parsed owned).2,
          ))

  run_process-IsRouted :
      (started : Option ℕ) (s : Service P D S)
      → q.start_process (plain_command app) ≡ started
      → IsOn w app.proxy s
      → Routes (run_process w app q (plain_built app) started s)
  unfolding run_process
  run_process-IsRouted none s launched is_on done = absurd (ground arith)
  run_process-IsRouted (some pid) s launched is_on done =
      connect-IsRouted pid (record s { started = (pid, plain_command app) ∷ s.started }) launched
        is_on done

  build-plain :
      (l : LaunchState)
      → uses_proxy_bridge_mode (exe_name w.names app.path) ≡ false
      → build_launch_command w.host w.net w.names app l ≡ (ok (plain_built app), l)
  unfolding build_launch_command
  build-plain l plain = rw plain refl

  profiled-IsRouted :
      (r : Bool × Service P D S)
      → uses_proxy_bridge_mode (exe_name w.names app.path) ≡ false
      → IsOn w app.proxy r.1
      → Routes (profiled w app q r)
  unfolding profiled run_application run_built
  profiled-IsRouted (false, s) plain is_on = λ done. absurd (ground arith)
  profiled-IsRouted (true, s) plain is_on =
      subst
        (λ (o : Result LaunchError Built × LaunchState).
          Routes (run_built w app q o.0 (record s { launch = o.1 })))
        (sym (build-plain s.launch plain))
        (run_process-IsRouted (q.start_process (plain_command app)) s refl is_on)

  prepared-IsRouted :
      (r : Bool × Service P D S)
      → uses_proxy_bridge_mode (exe_name w.names app.path) ≡ false
      → TurnsOn w app.proxy r
      → Routes (prepared w app q r)
  unfolding prepared
  prepared-IsRouted (false, s) plain turns_on = λ done. absurd (ground arith)
  prepared-IsRouted (true, s) plain turns_on =
      profiled-IsRouted (prepare_profile w app q.profile s) plain
        (prepare_profile-IsOn w app q.profile s (turns_on refl))

  launch_application-IsRouted :
      (config : ProxyConfig) (s : Service P D S)
      → IsReady s
      → uses_proxy_bridge_mode (exe_name w.names app.path) ≡ false
      → Routes (launch_application w config app q s)
  unfolding launch_application
  launch_application-IsRouted config s h plain =
      if_intro Routes (is_empty app.path) _ _ (λ _ done. absurd (ground arith))
        (λ _.
          if_intro Routes (is_empty (trim_space app.proxy)) _ _ (λ _ done. absurd (ground arith))
            (λ _.
              prepared-IsRouted _ plain
                (rw plain (prepare_engine-IsOn w config.device app.proxy s h))))

  -- If a request to launch an application that needs no bridge is answered by 204, in any state that
  -- requests can lead to, the application runs and is tracked, each connection whose owner the resolver
  -- finds to be its process is dialled through its proxy, the host of the proxy is reached past the tunnel,
  -- and the default route leads into the tunnel.
  pub handle_launch-IsRouted :
      (config : ProxyConfig) (s : Service P D S)
      → IsReady s
      → q.decoded ≡ some app
      → uses_proxy_bridge_mode (exe_name w.names app.path) ≡ false
      → (handle_launch w config q s).0 ≡ no_content
      → IsRouted w parent_pid app q (handle_launch w config q s).1
  unfolding handle_launch launch_decoded
  handle_launch-IsRouted config s h decoded plain =
      if_intro Routes q.is_post _ _
        (λ _.
          subst (λ o. Routes (launch_decoded w config q o s)) (sym decoded)
            (launch_application-IsRouted config s h plain))
        (λ _ done. absurd (ground arith))
