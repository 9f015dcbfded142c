-- ===== src/Service.antt =====
-- The handlers of netmonitor-gui/main.go that start, stop and use the proxy engine:
-- `handleProxyEngineStart`, `handleProxyEngineStop` and `handleLaunchApplication`. A handler takes the
-- state of the program to an HTTP status and the next state; the requests run one after another.
pub mod Started
pub mod Ready
pub mod Routed
pub mod Bridges
pub mod Race
mod Tests
use proxy_for_windows_app.Base.{
  ℕ, Bool, true, false, not, ◌&&◌, ◌||◌, Option, none, some, List, [], ◌∷◌, Result, ok, err,
  if◌then◌else◌, is_empty, is_some, is_ok,
}
use proxy_for_windows_app.Base.Text.{Text, codes, trim_space}
use proxy_for_windows_app.Address.{NetFunctions, normalized_proxy_or_raw}
use proxy_for_windows_app.Network.{Net, NetError, System, ensure_bypass_route, cleanup}
use proxy_for_windows_app.Config.{Application, ProxyConfig, ProxyEntry}
use proxy_for_windows_app.Apps.{
  Launched, Apps, Kill, NameFunctions, exe_name, is_chromium_browser, is_vscode,
  uses_proxy_bridge_mode, close_bridge, enter_launched, remove_launched,
}
use proxy_for_windows_app.Engine.{
  Key, EngineError, EngineState, Parts, insert_key, start, stop, enable_pid_routing, set_pid_proxy,
}
use proxy_for_windows_app.Launch.{
  Host, LaunchError, LaunchState, LaunchCommand, Built, build_launch_command,
}
use proxy_for_windows_app.Launch.Processes.{
  PidQuery, ProfileAnswers, wait_for_profile, ensure_profile_ready,
}

pub data Status : Type 0 where
  no_content bad_request conflict internal_error method_not_allowed : Status

-- The package variables that the handlers use: `proxyEngineRunning`, those of the engine,
-- `networkState`, `launchedApps`; and the processes that were started, the newest first.
pub record Service (P D S : Type 0) : Type 0 where
  pub running : Bool
  pub engine : EngineState P D S
  pub net : Net
  pub launch : LaunchState
  pub started : List (ℕ × LaunchCommand)

-- What the handlers call that is not in this program.
pub record World (P D S : Type 0) : Type 0 where
  pub parts : Parts P D S
  pub sys : System
  pub net : NetFunctions
  pub names : NameFunctions
  pub host : Host

-- The body of a request to launch an application, and what the system answers while it is handled.
pub record LaunchRequest : Type 0 where
  pub is_post : Bool
  -- the application, if the body can be decoded
  pub decoded : Option Application
  pub profile : ProfileAnswers
  -- `cmd.Start` and `cmd.Process.Pid`
  pub start_process : LaunchCommand → Option ℕ
  pub rounds : List (PidQuery × Bool)
  pub instance_id : Text

module _ {P D S : Type 0} (w : World P D S) where
  -- What `engine.Insert` is called with.
  pub engine_key : Text → Text → Key
  engine_key device proxy = record {
    device = device;
    proxy = normalized_proxy_or_raw w.net.query_escape proxy;
    log_level = codes "info";
    proxy_processes = [];
  }

  enabled : Result EngineError (Unit {0}) × EngineState P D S → Bool × EngineState P D S
  enabled (err _, e) = (false, e)
  enabled (ok _, e) = let (r, e') = enable_pid_routing w.parts e in (is_ok r, e')

  -- `engine.Insert`, `engine.StartWithError` and `engine.EnablePIDRouting`, up to the first error.
  unfoldable pub start_engine : Text → Text → EngineState P D S → Bool × EngineState P D S
  unfolding engine_key enabled
  start_engine device proxy e =
      enabled (start w.parts (insert_key w.parts (engine_key device proxy) e))

  started_engine : Bool × EngineState P D S → Service P D S → Status × Service P D S
  started_engine (false, e) s = (internal_error, record s { engine = e })
  started_engine (true, e) s = (no_content, record s { engine = e; running = true })

  start_with : List ProxyEntry → Text → Service P D S → Status × Service P D S
  unfolding started_engine
  start_with [] device s = (bad_request, s)
  start_with (first ∷ proxies) device s =
      if is_empty device
      then (bad_request, s)
      else if s.running
      then (conflict, s)
      else started_engine (start_engine device first.url s.engine) s

  -- `handleProxyEngineStart`, given the configuration that is loaded.
  unfoldable pub handle_start : Bool → ProxyConfig → Service P D S → Status × Service P D S
  unfolding start_with
  handle_start is_post config s =
      if is_post then start_with config.proxies config.device s else (method_not_allowed, s)

  stopped : Apps → Service P D S → Service P D S
  stopped left s = record s {
    engine = stop w.parts s.engine;
    net = cleanup w.sys w.net s.net;
    launch = record s.launch { apps = left };
    running = false;
  }

  -- `handleProxyEngineStop`; the table of the launched applications that `shutdownLaunchedApplications`
  -- leaves is the argument.
  unfoldable pub handle_stop : Bool → Apps → Service P D S → Status × Service P D S
  unfolding stopped
  handle_stop is_post left s =
      if not is_post
      then (method_not_allowed, s)
      else if not s.running
      then (no_content, s)
      else (no_content, stopped left s)

  -- `ensureProxyBypassRoute`
  unfoldable pub bypass : Text → Service P D S → Bool × Service P D S
  bypass proxy s =
      let (r, n) = ensure_bypass_route w.sys w.net proxy s.net in (is_ok r, record s { net = n })

  configured :
      Result NetError (Unit {0}) × Net → EngineState P D S → Service P D S → Bool × Service P D S
  configured (err _, n) e s = (false, record s { engine = stop w.parts e; net = n })
  configured (ok _, n) e s = (true, record s { engine = e; net = n; running = true })

  autostarted : Text → Bool × EngineState P D S → Service P D S → Bool × Service P D S
  unfolding configured
  autostarted proxy (false, e) s = (false, record s { engine = e })
  autostarted proxy (true, e) s = configured (ensure_bypass_route w.sys w.net proxy s.net) e s

  -- The start of the engine in `handleLaunchApplication`.
  unfoldable pub autostart : Text → Text → Service P D S → Bool × Service P D S
  unfolding autostarted
  autostart device proxy s = autostarted proxy (start_engine device proxy s.engine) s

  -- What `handleLaunchApplication` does with the engine and the network, and whether it goes on.
  unfoldable pub prepare_engine : Bool → Text → Text → Service P D S → Bool × Service P D S
  unfolding autostart bypass
  prepare_engine bridge_app device proxy s =
      if not bridge_app && not s.running
      then autostart device proxy s
      else if not bridge_app
      then bypass proxy s
      else if s.running
      then bypass proxy s
      else (true, s)

  profile_ready : Option LaunchError × List Kill × Apps → Service P D S → Bool × Service P D S
  profile_ready (failed, kills, a) s =
      (not (is_some failed), record s { launch = record s.launch { apps = a } })

  -- What `handleLaunchApplication` does with the profile of a browser.
  unfoldable pub prepare_profile :
      Application → ProfileAnswers → Service P D S → Bool × Service P D S
  unfolding profile_ready
  prepare_profile app q s =
      if is_chromium_browser (exe_name w.names app.path)
        && not (is_vscode (exe_name w.names app.path))
      then profile_ready (ensure_profile_ready w.host w.net.query_escape app q s.launch.apps) s
      else (true, s)

  -- The variable `instance`.
  unfoldable pub instance_of : Application → Built → ℕ → Text → Launched
  instance_of app built pid id = record {
    instance_id = id;
    app = app;
    pid = pid;
    profile_dir = built.profile_dir;
    chromium = built.bridge_mode;
    keep_bridge_alive = is_vscode (exe_name w.names app.path);
    bridge = built.bridge;
  }

  entered : Launched → Service P D S → Status × Service P D S
  entered item s = (
    no_content,
    record s { launch = record s.launch { apps = enter_launched item s.launch.apps } },
  )

  waited : Launched → Option LaunchError → Service P D S → Status × Service P D S
  unfolding entered
  waited item (some _) s = (
    internal_error,
    record s { launch = record s.launch { apps = close_bridge item.bridge s.launch.apps } },
  )
  waited item none s = entered item s

  routed :
      Launched
      → Result EngineError (Unit {0}) × EngineState P D S
      → Service P D S
      → Status × Service P D S
  unfolding entered
  routed item (err _, e) s = (internal_error, record s { engine = e })
  routed item (ok _, e) s = entered item (record s { engine = e })

  -- The wait for the processes of a profile, or `SetPIDProxy`.
  unfoldable pub connect :
      Launched → List (PidQuery × Bool) → Service P D S → Status × Service P D S
  unfolding waited routed
  connect item rounds s =
      if item.chromium
      then waited item (wait_for_profile rounds none) s
      else routed item
          (set_pid_proxy w.parts item.pid
            (normalized_proxy_or_raw w.net.query_escape item.app.proxy) item.app.name s.engine)
          s

  run_process :
      Application → LaunchRequest → Built → Option ℕ → Service P D S → Status × Service P D S
  unfolding connect instance_of
  run_process app q built none s = (internal_error, s)
  run_process app q built (some pid) s =
      connect (instance_of app built pid q.instance_id) q.rounds
        (record s { started = (pid, built.command) ∷ s.started })

  run_built :
      Application
      → LaunchRequest
      → Result LaunchError Built
      → Service P D S
      → Status × Service P D S
  unfolding run_process
  run_built app q (err _) s = (internal_error, s)
  run_built app q (ok built) s = run_process app q built (q.start_process built.command) s

  -- `handleLaunchApplication` from `buildLaunchCommand` on.
  unfoldable pub run_application :
      Application → LaunchRequest → Service P D S → Status × Service P D S
  unfolding run_built
  run_application app q s =
      let (built, l) = build_launch_command w.host w.net w.names app s.launch in
      run_built app q built (record s { launch = l })

  profiled : Application → LaunchRequest → Bool × Service P D S → Status × Service P D S
  unfolding run_application
  profiled app q (false, s) = (internal_error, s)
  profiled app q (true, s) = run_application app q s

  prepared : Application → LaunchRequest → Bool × Service P D S → Status × Service P D S
  unfolding profiled prepare_profile
  prepared app q (false, s) = (internal_error, s)
  prepared app q (true, s) = profiled app q (prepare_profile app q.profile s)

  -- `handleLaunchApplication` for a decoded application.
  unfoldable pub launch_application :
      ProxyConfig → Application → LaunchRequest → Service P D S → Status × Service P D S
  unfolding prepared prepare_engine
  launch_application config app q s =
      if is_empty app.path
      then (bad_request, s)
      else if is_empty (trim_space app.proxy)
      then (bad_request, s)
      else prepared app q (
          prepare_engine (uses_proxy_bridge_mode (exe_name w.names app.path)) config.device
            app.proxy s)

  launch_decoded :
      ProxyConfig → LaunchRequest → Option Application → Service P D S → Status × Service P D S
  unfolding launch_application
  launch_decoded config q none s = (bad_request, s)
  launch_decoded config q (some app) s = launch_application config app q s

  -- `handleLaunchApplication`
  unfoldable pub handle_launch :
      ProxyConfig → LaunchRequest → Service P D S → Status × Service P D S
  unfolding launch_decoded
  handle_launch config q s =
      if q.is_post then launch_decoded config q q.decoded s else (method_not_allowed, s)

-- What may happen to the program: a request to one of the handlers, or a launched application that its
-- monitor finds to have ended. A stop comes with the table that `shutdownLaunchedApplications` leaves.
pub data Event : Type 0 where
  start_request : Bool → ProxyConfig → Event
  stop_request : Bool → Apps → Event
  launch_request : ProxyConfig → LaunchRequest → Event
  application_ended : Launched → Event

module _ {P D S : Type 0} (w : World P D S) where
  unfoldable pub serve : Event → Service P D S → Service P D S
  serve (start_request is_post config) s = (handle_start w is_post config s).1
  serve (stop_request is_post left) s = (handle_stop w is_post left s).1
  serve (launch_request config q) s = (handle_launch w config q s).1
  serve (application_ended item) s = record s {
    launch = record s.launch { apps = remove_launched item s.launch.apps };
  }

  unfoldable pub serve_all : List Event → Service P D S → Service P D S
  serve_all [] s = s
  serve_all (event ∷ events) s = serve_all events (serve event s)
