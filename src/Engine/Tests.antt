-- ===== src/Engine/Tests.antt =====
-- The engine at concrete data. A proxy, a device and a stack are numbers.
use proxy_for_windows_app.Base.{
  ℕ, ◌≡◌, refl, true, none, some, [], ◌∷◌, Result, ok, err, ℕ_discrete,
}
use proxy_for_windows_app.Base.Text.{codes}
use proxy_for_windows_app.Base.Dict.{lookup, insert}
use proxy_for_windows_app.Router.{
  RouterError, OwnerInfo, PidRouter, parent_not_found, new_pid_router,
}
use proxy_for_windows_app.Engine.{
  Key, plain, unset, by_pid, EngineState, Parts, start, enable_pid_routing, set_pid_proxy,
  tunnel_pick, insert_key, netstack, set_proxy, build_stack, select_proxy, router_disabled,
}
use proxy_for_windows_app.Engine.Wired.{IsWired, set_pid_proxy-routes}

abbrev parts : Parts ℕ ℕ ℕ
parts = record {
  general = λ k. true;
  rest_api = λ k. true;
  parse_multicast_groups = λ k. true;
  parse_proxy = λ t. some 7;
  direct = some 0;
  parse_device = λ t. some 1;
  parse_options = λ k. true;
  create_stack = λ d. some 2;
  resolver_error = none;
  to_lower = λ t. t;
}

abbrev no_parents : ℕ → ℕ → Result RouterError ℕ
no_parents depth pid = err parent_not_found

abbrev idle : EngineState ℕ ℕ ℕ
idle = record {
  default_key = none;
  default_proxy = none;
  pid_router = none;
  default_device = none;
  default_stack = none;
  tunnel = unset;
  routers = [];
  next_router = 0;
  closed_devices = [];
  closed_stacks = [];
}

abbrev key : Key
key = record {
  device = codes "d";
  proxy = codes "p";
  log_level = codes "info";
  proxy_processes = [];
}

abbrev owner : OwnerInfo
owner = record { pid = 42; process_name = [] }

abbrev fresh : PidRouter ℕ
fresh = record { direct = 0; targets = []; labels = [] }

abbrev wired : EngineState ℕ ℕ ℕ
wired = record idle {
  pid_router = some 0;
  tunnel = by_pid 0;
  routers = (0, fresh) ∷ [];
  next_router = 1;
}

started : start parts (insert_key parts key idle) ≡ (
  ok tt,
  record idle {
    default_key = some key;
    default_proxy = some 7;
    default_device = some 1;
    default_stack = some 2;
    tunnel = plain 7;
  },
)
unfolding start insert_key netstack set_proxy select_proxy build_stack
started = refl

too_early : set_pid_proxy parts 42 (codes "u") [] idle ≡ (err router_disabled, idle)
unfolding set_pid_proxy
too_early = refl

enabled : enable_pid_routing parts idle ≡ (ok tt, wired)
unfolding enable_pid_routing new_pid_router insert
enabled = refl

wired-IsWired : IsWired wired
unfolding lookup ℕ_discrete
wired-IsWired = (refl, refl)

set_pid_proxy-routes_example :
    let (r, e') = set_pid_proxy parts 42 (codes "u") (codes "game") wired in
    (r ≡ ok tt) × IsWired e' × (tunnel_pick parts no_parents e' (ok owner) ≡ some 7)
set_pid_proxy-routes_example =
    set_pid_proxy-routes parts no_parents wired 42 (codes "u") (codes "game") 7 owner wired-IsWired
      refl refl
