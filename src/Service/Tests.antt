-- ===== src/Service/Tests.antt =====
-- The handlers at concrete data: one program that launches a game and a browser.
use mathlib.Core.Path.{subst}
use proxy_for_windows_app.Base.{
  is_some, ℕ, ◌≡◌, refl, true, false, none, some, List, [], ◌∷◌, Result, ok, err, ℕ_discrete,
}
use proxy_for_windows_app.Base.Text.{codes, Text-discrete, trim_space, contains, split}
use proxy_for_windows_app.Base.Dict.{lookup}
use proxy_for_windows_app.Base.FilePath.{base_name}
use proxy_for_windows_app.Address.{
  NetFunctions, parse_browser_proxy, normalize_proxy_address, normalized_proxy_or_raw, proxy_host,
}
use proxy_for_windows_app.Network.{ensure_bypass_route, set_up, add_host}
use proxy_for_windows_app.Config.{Application, ProxyConfig}
use proxy_for_windows_app.Apps.{exe_name, uses_proxy_bridge_mode, is_vscode, is_chromium_browser}
use proxy_for_windows_app.Router.{RouterError, parent_not_found, new_pid_router}
use proxy_for_windows_app.Engine.{
  Parts, unset, start, netstack, set_proxy, build_stack, select_proxy, insert_key,
  enable_pid_routing, set_pid_proxy,
}
use proxy_for_windows_app.Launch.{Host, Built, build_launch_command, build_bridged}
use proxy_for_windows_app.Service.{
  Service, World, LaunchRequest, no_content, internal_error, Event, launch_request, stop_request,
  handle_launch, launch_application, prepare_engine, prepare_profile, autostart, start_engine,
  connect, run_application, instance_of, serve_all,
}
use proxy_for_windows_app.Service.Started.{IsReady}
use proxy_for_windows_app.Service.Ready.{serve_all-IsReady}
use proxy_for_windows_app.Service.Routed.{IsRouted, handle_launch-IsRouted}
use proxy_for_windows_app.Service.Race.{
  Two, flag_read, routing_enabled, past, advance, first_moves, second_moves, Run, start_here, more,
}
use proxy_for_windows_app.Service.Race.Again.{IsUnrouted}
use proxy_for_windows_app.Service.Race.Outcome.{race-IsUnrouted}
use proxy_for_windows_app.Engine.Wired.{IsWired}
use proxy_for_windows_app.Service.Bridges.{
  LinkedOrNothing, run_application-LinkedOrNothing, run_application-keeps_bridge,
}

abbrev net : NetFunctions
net = record {
  query_escape = λ t. t;
  parse = λ t. some (record {
    scheme = [];
    host = codes "h:1";
    hostname = codes "h";
    port = codes "1";
    username = [];
    password = [];
  });
  split_host_port = λ t. some (codes "1.1", codes "9");
  is_ip = λ t. true;
  lookup_ip = λ t. none;
  scan_int = λ t. some 1;
}

abbrev parts : Parts ℕ ℕ ℕ
parts = record {
  general = λ k. true;
  rest_api = λ k. true;
  parse_multicast_groups = λ k. true;
  parse_proxy = λ t. some 7;
  direct = some 0;
  parse_device = λ t. some 1;
  parse_options = λ k. true;
  create_stack = λ d. some 2;
  resolver_error = none;
  to_lower = λ t. t;
}

abbrev host : Host
host = record {
  user_config_dir = some (codes "C:");
  mkdir_all = λ t. true;
  join = λ ts. codes "C:p";
  dir = λ t. codes "C:";
  environ = [];
  read_file = λ t. none;
  is_blank = λ t. true;
  unmarshal = λ t. none;
  write_settings = λ t s. true;
  listen = true;
  bridge_addr = λ b. codes "a";
}

abbrev world : World ℕ ℕ ℕ
world = record {
  parts = parts;
  sys = record { run = λ t c. true; default_gateway = λ t. some (codes "0.1") };
  net = net;
  names = record { to_lower = λ t. t; volume_len = λ t. 2 };
  host = host;
}

abbrev booted : Service ℕ ℕ ℕ
booted = record {
  running = false;
  engine = record {
    default_key = none;
    default_proxy = none;
    pid_router = none;
    default_device = none;
    default_stack = none;
    tunnel = unset;
    routers = [];
    next_router = 0;
    closed_devices = [];
    closed_stacks = [];
  };
  net = record { network_state = none; trace = [] };
  launch = record { apps = record { launched = []; closed = [] }; next_bridge = 0 };
  started = [];
}

abbrev game : Application
game = record {
  id = codes "g";
  name = codes "G";
  path = codes "C:\\game.exe";
  process_name = [];
  proxy_id = [];
  proxy = codes "1.1:9";
}

abbrev browser : Application
browser = record game { id = codes "b"; path = codes "C:\\opera.exe" }

abbrev config : ProxyConfig
config = record {
  proxy_url = [];
  device = codes "tun";
  processes = [];
  proxies = [];
  applications = [];
}

abbrev launch_game : LaunchRequest
launch_game = record {
  is_post = true;
  decoded = some game;
  profile = record { before = ok []; polls = []; last = ok []; force_ok = λ pid. true };
  start_process = λ command. some 42;
  rounds = (ok (42 ∷ []), false) ∷ [];
  instance_id = codes "i";
}

booted-IsReady : IsReady booted
booted-IsReady = (refl, tt)

is_plain : uses_proxy_bridge_mode (exe_name world.names (codes "C:\\game.exe")) ≡ false
unfolding uses_proxy_bridge_mode exe_name base_name Text-discrete ℕ_discrete
is_plain = refl

is_bridged : uses_proxy_bridge_mode (exe_name world.names (codes "C:\\opera.exe")) ≡ true
unfolding uses_proxy_bridge_mode exe_name base_name Text-discrete ℕ_discrete
is_bridged = refl

launches : (handle_launch world config launch_game booted).0 ≡ no_content
unfolding handle_launch launch_application prepare_engine autostart start_engine start insert_key
    netstack set_proxy select_proxy build_stack enable_pid_routing new_pid_router
    ensure_bypass_route set_up proxy_host normalize_proxy_address trim_space contains split
    normalized_proxy_or_raw prepare_profile is_chromium_browser is_vscode uses_proxy_bridge_mode
    exe_name base_name Text-discrete ℕ_discrete run_application build_launch_command connect
    set_pid_proxy instance_of
launches = refl

abbrev no_parents : ℕ → ℕ → Result RouterError ℕ
no_parents depth pid = err parent_not_found

handle_launch-IsRouted_example :
    IsRouted world no_parents game launch_game (handle_launch world config launch_game booted).1
handle_launch-IsRouted_example =
    handle_launch-IsRouted world no_parents game launch_game config booted booted-IsReady refl
      is_plain launches

abbrev events : List Event
events =
    launch_request config launch_game
    ∷ stop_request true booted.launch.apps
    ∷ launch_request config launch_game
    ∷ []

serve_all-IsReady_example : IsReady (serve_all world events booted)
serve_all-IsReady_example = serve_all-IsReady world events booted booted-IsReady

run_application-LinkedOrNothing_example :
    LinkedOrNothing world browser launch_game booted
      (run_application world browser launch_game booted)
run_application-LinkedOrNothing_example =
    run_application-LinkedOrNothing world browser launch_game booted is_bridged
      (λ command. (42, refl))

abbrev launch_nothing : LaunchRequest
launch_nothing = record launch_game { start_process = λ command. none }

abbrev bridged_browser : Built
bridged_browser = record {
  command = record {
    path = codes "C:\\opera.exe";
    args =
        codes "--user-data-dir=C:p"
        ∷ codes "--proxy-server=http://a"
        ∷ codes "--new-window"
        ∷ codes "--no-first-run"
        ∷ [];
    env = none;
  };
  profile_dir = codes "C:p";
  bridge_mode = true;
  bridge = some 0;
}

builds : (build_launch_command host net world.names browser booted.launch).0 ≡ ok bridged_browser
unfolding build_launch_command uses_proxy_bridge_mode is_chromium_browser is_vscode exe_name
    base_name Text-discrete ℕ_discrete parse_browser_proxy normalize_proxy_address trim_space
    contains split build_bridged
builds = refl

run_application-keeps_bridge_example :
    run_application world browser launch_nothing booted
    ≡ (internal_error, record booted { launch = record booted.launch { next_bridge = 1 } })
run_application-keeps_bridge_example =
    run_application-keeps_bridge world browser launch_nothing booted bridged_browser is_bridged
      builds refl

-- Both requests have found no engine running; the one starts it, then the other.
abbrev both_read : Two ℕ ℕ ℕ
both_read = record { service = booted; first = flag_read false; second = flag_read false }

abbrev step_first : Two ℕ ℕ ℕ → Two ℕ ℕ ℕ
step_first t = record t {
  service = (advance world (codes "tun") (codes "1.1:9") t.first t.service).1;
  first = (advance world (codes "tun") (codes "1.1:9") t.first t.service).0;
}

abbrev step_second : Two ℕ ℕ ℕ → Two ℕ ℕ ℕ
step_second t = record t {
  service = (advance world (codes "tun") (codes "2.2:9") t.second t.service).1;
  second = (advance world (codes "tun") (codes "2.2:9") t.second t.service).0;
}

-- The first request inserts its key, starts the engine and enables PID routing.
abbrev first_routed : Two ℕ ℕ ℕ
first_routed = step_first (step_first (step_first both_read))

abbrev Moves : Two ℕ ℕ ℕ → Two ℕ ℕ ℕ → Type 0
Moves = Run world (codes "tun") (codes "1.1:9") (codes "2.2:9")

by_first : (t u : Two ℕ ℕ ℕ) → Moves t u → Moves t (step_first u)
by_first t u run = more run (first_moves u.service u.first u.second)

by_second : (t u : Two ℕ ℕ ℕ) → Moves t u → Moves t (step_second u)
by_second t u run = more run (second_moves u.service u.first u.second)

routed_first : Moves both_read first_routed
routed_first = by_first _ _ (by_first _ _ (by_first _ _ start_here))

-- The second does the same, then both configure the network.
abbrev both_past : Two ℕ ℕ ℕ
both_past = step_second (step_first (step_second (step_second (step_second first_routed))))

both_run : Moves first_routed both_past
both_run = by_second _ _ (by_first _ _ (by_second _ _ (by_second _ _ (by_second _ _ start_here))))

first_enabled :
    first_routed
    ≡ record { service = first_routed.service; first = routing_enabled; second = flag_read false }
unfolding advance start_engine start insert_key netstack set_proxy select_proxy build_stack
    enable_pid_routing new_pid_router normalized_proxy_or_raw normalize_proxy_address trim_space
    contains split
first_enabled = refl

enabled_then : is_some first_routed.service.engine.pid_router ≡ true
unfolding advance start_engine start insert_key netstack set_proxy select_proxy build_stack
    enable_pid_routing new_pid_router normalized_proxy_or_raw normalize_proxy_address trim_space
    contains split
enabled_then = refl

first_past : both_past.first ≡ past true
unfolding advance start_engine start insert_key netstack set_proxy select_proxy build_stack
    enable_pid_routing new_pid_router ensure_bypass_route set_up proxy_host normalize_proxy_address
    trim_space contains split normalized_proxy_or_raw
first_past = refl

second_past : both_past.second ≡ past true
unfolding advance start_engine start insert_key netstack set_proxy select_proxy build_stack
    enable_pid_routing new_pid_router ensure_bypass_route set_up proxy_host normalize_proxy_address
    trim_space contains split normalized_proxy_or_raw Text-discrete ℕ_discrete add_host lookup
second_past = refl

race-IsUnrouted_example :
    IsUnrouted world (codes "tun") (codes "2.2:9") both_past.service
    × (¬ IsWired both_past.service.engine)
race-IsUnrouted_example =
    race-IsUnrouted world (codes "tun") (codes "1.1:9") (codes "2.2:9") first_routed.service
      both_past enabled_then (subst (λ t. Moves t both_past) first_enabled both_run) first_past
      second_past
