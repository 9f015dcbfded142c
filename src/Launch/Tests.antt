-- ===== src/Launch/Tests.antt =====
-- Launch commands, settings and profile waits at concrete data.
use proxy_for_windows_app.Base.{
  ◌≡◌, refl, Bool, true, false, none, some, List, [], ◌∷◌, ok, err, ℕ_discrete,
}
use proxy_for_windows_app.Base.Text.{codes, Text-discrete}
use proxy_for_windows_app.Base.Dict.{lookup, insert, erase}
use proxy_for_windows_app.Base.FilePath.{base_name}
use proxy_for_windows_app.Address.{NetFunctions}
use proxy_for_windows_app.Config.{Application}
use proxy_for_windows_app.Apps.{NameFunctions, exe_name, uses_proxy_bridge_mode}
use proxy_for_windows_app.Launch.{text, flag, Settings, Host, LaunchState, with_proxy, query_failed}
use proxy_for_windows_app.Launch.Monitor.{monitor_chromium, Ends, monitor_chromium-Ends_iff}
use proxy_for_windows_app.Base.{◌↔◌, Bool}
use proxy_for_windows_app.Launch.Processes.{PidQuery, wait_for_profile, close_profile}
use proxy_for_windows_app.Launch.Settings.{at}

abbrev host : Host
host = record {
  user_config_dir = some (codes "C:");
  mkdir_all = λ t. true;
  join = λ ts. codes "C:p";
  dir = λ t. codes "C:";
  environ = [];
  read_file = λ t. none;
  is_blank = λ t. true;
  unmarshal = λ t. none;
  write_settings = λ t s. true;
  listen = true;
  bridge_addr = λ b. codes "a";
}

abbrev net : NetFunctions
net = record {
  query_escape = λ t. t;
  parse = λ t. some (record {
    scheme = [];
    host = [];
    hostname = codes "h";
    port = codes "1";
    username = [];
    password = [];
  });
  split_host_port = λ t. none;
  is_ip = λ t. false;
  lookup_ip = λ t. none;
  scan_int = λ t. some 1;
}

abbrev names : NameFunctions
names = record { to_lower = λ t. t; volume_len = λ t. 2 }

abbrev browser : Application
browser = record {
  id = codes "b";
  name = [];
  path = codes "C:\\opera.exe";
  process_name = [];
  proxy_id = [];
  proxy = codes "h:1";
}

abbrev at_start : LaunchState
at_start = record { apps = record { launched = []; closed = [] }; next_bridge = 0 }

is_bridged : uses_proxy_bridge_mode (exe_name names (codes "C:\\opera.exe")) ≡ true
unfolding uses_proxy_bridge_mode exe_name base_name Text-discrete ℕ_discrete
is_bridged = refl

abbrev old : Settings
old = (codes "window.restoreWindows", text (codes "none")) ∷ (codes "x", flag true) ∷ []

drops_restore : at (codes "window.restoreWindows") (with_proxy (codes "p") old) ≡ none
unfolding with_proxy lookup insert erase Text-discrete ℕ_discrete
drops_restore = refl

abbrev rounds : List (PidQuery × Bool)
rounds = (err tt, false) ∷ (ok [], false) ∷ (ok (7 ∷ []), true) ∷ []

gives_up :
    wait_for_profile ((err tt, false) ∷ (ok [], true) ∷ (ok (7 ∷ []), true) ∷ []) none
    ≡ some query_failed
unfolding wait_for_profile
gives_up = refl

abbrev one_left : PidQuery
one_left = ok (7 ∷ [])

abbrev polls : List PidQuery
polls = one_left ∷ []

closes : (close_profile (λ pid. true) (7 ∷ 8 ∷ []) polls one_left).0 ≡ none
unfolding close_profile
closes = refl

-- A browser whose processes are seen in the second round and gone in the third.
abbrev closing : List (PidQuery × Bool)
closing = (ok [], false) ∷ (ok (7 ∷ []), false) ∷ (ok [], false) ∷ []

test_monitor : monitor_chromium false closing ≡ true
unfolding monitor_chromium
test_monitor = refl

monitor_chromium-Ends_iff_example : (monitor_chromium false closing ≡ true) ↔ Ends false closing
monitor_chromium-Ends_iff_example = monitor_chromium-Ends_iff closing
