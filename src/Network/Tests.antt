-- ===== src/Network/Tests.antt =====
-- The tunnel's routes on a small system, and the theorems there.
use proxy_for_windows_app.Base.{
  ◌≡◌, refl, Bool, true, false, none, some, [], ◌∷◌, Result, ok, err, arith, if◌then◌else◌, is_some,
}
use proxy_for_windows_app.Base.Text.{Text, codes, Text-discrete}
use proxy_for_windows_app.Base.Dict.{lookup}
use proxy_for_windows_app.Address.{Url, NetFunctions, proxy_host, normalize_proxy_address}
use proxy_for_windows_app.Base.Text.{trim_space, contains, split}
use proxy_for_windows_app.Network.{
  Command, set_address, set_dns, add_default, add_bypass, delete_bypass, TunState, Net, NetError,
  command_failed, System, set_up, ensure_bypass_route, cleanup,
}
use proxy_for_windows_app.Network.Routes.{default_up, route_up}
use proxy_for_windows_app.Network.Bypass.{IsCovered, ensure_bypass_route-IsCovered}
use proxy_for_windows_app.Network.Cleanup.{Deletes, cleanup-removes}

abbrev link : Url
link = record {
  scheme = [];
  host = codes "1.1:9";
  hostname = [];
  port = [];
  username = [];
  password = [];
}

abbrev net : NetFunctions
net = record {
  query_escape = λ t. t;
  parse = λ t. some link;
  split_host_port = λ t. some (codes "1.1", codes "9");
  is_ip = λ t. true;
  lookup_ip = λ t. none;
  scan_int = λ t. none;
}

abbrev willing : System
willing = record { run = λ t c. true; default_gateway = λ t. some (codes "0.1") }

-- Refuses the default route only.
abbrev refuses : Command → Bool
refuses add_default = false
refuses _ = true

abbrev grudging : System
grudging = record { run = λ t c. refuses c; default_gateway = λ t. some (codes "0.1") }

abbrev fresh : Net
fresh = record { network_state = none; trace = [] }

abbrev raw : Text
raw = codes "1.1:9"

abbrev tunnel : TunState
tunnel = record { gateway = codes "0.1"; proxy_hosts = (codes "1.1", tt) ∷ [] }

abbrev configured : Net
configured = record {
  network_state = some tunnel;
  trace =
      (add_default, true)
      ∷ (add_bypass (codes "1.1") (codes "0.1"), true)
      ∷ (set_dns, true)
      ∷ (set_address, true)
      ∷ [];
}

configures : ensure_bypass_route willing net raw fresh ≡ (ok tt, configured)
unfolding ensure_bypass_route set_up proxy_host normalize_proxy_address trim_space contains split
configures = refl

rolls_back : ensure_bypass_route grudging net raw fresh ≡ (
  err (command_failed add_default),
  record {
    network_state = none;
    trace =
        (delete_bypass (codes "1.1"), true)
        ∷ (add_default, false)
        ∷ (add_bypass (codes "1.1") (codes "0.1"), true)
        ∷ (set_dns, true)
        ∷ (set_address, true)
        ∷ [];
  },
)
unfolding ensure_bypass_route set_up proxy_host normalize_proxy_address trim_space contains split
rolls_back = refl

configured-IsCovered : IsCovered configured
unfolding lookup default_up route_up
configured-IsCovered = (refl, λ h recorded. ground arith)

ensure_bypass_route-IsCovered_example : IsCovered (ensure_bypass_route willing net raw configured).1
ensure_bypass_route-IsCovered_example =
    ensure_bypass_route-IsCovered willing net raw configured configured-IsCovered

abbrev refused : Result NetError (Unit {0}) × Net
refused = ensure_bypass_route grudging net raw fresh

willing-Deletes : Deletes willing
willing-Deletes = record { default_deleted = λ t. refl; bypass_deleted = λ t h. refl }

cleanup-removes_example :
    let t = cleanup willing net configured in
    (t.network_state ≡ none)
    × (default_up t.trace ≡ false)
    × ((h : Text)
        → route_up h t.trace ≡ (
            if is_some (lookup Text-discrete h tunnel.proxy_hosts)
            then false
            else route_up h configured.trace))
cleanup-removes_example = cleanup-removes willing net willing-Deletes configured tunnel refl
