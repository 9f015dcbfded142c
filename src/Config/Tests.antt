-- ===== src/Config/Tests.antt =====
-- Normalisation of concrete configurations.
use proxy_for_windows_app.Base.{
  ◌≡◌, refl, false, none, true, [], ◌∷◌, ◌++◌, is_empty, is_some, All, ℕ_discrete,
}
use proxy_for_windows_app.Base.Text.{codes, same, trim_space, contains, split, Text-discrete}
use proxy_for_windows_app.Base.Dict.{lookup, insert}
use proxy_for_windows_app.Base.FilePath.{base_name, ext, trim_suffix}
use proxy_for_windows_app.Address.{NetFunctions, proxy_display_name}
use proxy_for_windows_app.Base.Digits.{decimal}
use proxy_for_windows_app.Config.{
  ProxyEntry, proxy_id, add_proxy, Application, ProxyConfig, default_device, complete_proxy,
  take_proxies, normalize_proxies, normalize_application, normalize_applications,
  normalize_proxy_config, or_else, choose_proxy, choose_proxy_id, take_proxy,
}
use proxy_for_windows_app.Config.Proxies.{IsKept, normalize_proxies-IsKept}
use proxy_for_windows_app.Config.Applications.{IsBound, normalize_proxy_config-IsBound}
use proxy_for_windows_app.Config.Lost.{kept_of, normalize_proxies-lost}

abbrev net : NetFunctions
net = record {
  query_escape = λ t. t;
  parse = λ t. none;
  split_host_port = λ t. none;
  is_ip = λ t. false;
  lookup_ip = λ t. none;
  scan_int = λ t. none;
}

abbrev second : ProxyEntry
second = record { id = codes "proxy-2"; name = codes "a"; url = codes "h:1" }

abbrev unnamed : ProxyEntry
unnamed = record { id = []; name = []; url = codes "g:2" }

abbrev app : Application
app = record {
  id = [];
  name = [];
  path = codes " C:\\b\\x.exe";
  process_name = [];
  proxy_id = codes "gone";
  proxy = [];
}

abbrev config : ProxyConfig
config = record {
  proxy_url = [];
  device = codes "wintun://mytun";
  processes = codes "old" ∷ [];
  proxies = unnamed ∷ [];
  applications = app ∷ [];
}

normalizes : normalize_proxy_config net (λ p. 2) (λ n. codes "new") config ≡ record {
  proxy_url = [];
  device = default_device;
  processes = [];
  proxies = record { id = codes "proxy-1"; name = codes "g:2"; url = codes "g:2" } ∷ [];
  applications =
      record {
        id = codes "new";
        name = codes "x";
        path = codes "C:\\b\\x.exe";
        process_name = codes "x.exe";
        proxy_id = codes "proxy-1";
        proxy = [];
      }
      ∷ [];
}
unfolding normalize_proxy_config normalize_proxies take_proxies take_proxy complete_proxy
    proxy_display_name trim_space contains split lookup insert Text-discrete ℕ_discrete
    normalize_applications normalize_application base_name ext trim_suffix or_else choose_proxy
    choose_proxy_id
normalizes = refl

normalize_proxies-IsKept_example : IsKept (normalize_proxies net [] (second ∷ unnamed ∷ []))
normalize_proxies-IsKept_example = normalize_proxies-IsKept net [] (second ∷ unnamed ∷ [])

normalize_proxy_config-IsBound_example :
    let c = normalize_proxy_config net (λ p. 2) (λ n. codes "new") config in
    (is_empty c.device ≡ false)
    × (same c.device (codes "wintun://mytun") ≡ false)
    × (c.processes ≡ [])
    × All (IsBound c.proxies) c.applications
normalize_proxy_config-IsBound_example =
    normalize_proxy_config-IsBound net (λ p. 2) (λ n. codes "new") config

second_taken :
    is_some (
      lookup Text-discrete
        (proxy_id (kept_of net (second ∷ [])).proxies)
        (kept_of net (second ∷ [])).proxy_ids)
    ≡ true
unfolding lookup insert Text-discrete ℕ_discrete proxy_id take_proxies take_proxy add_proxy
    complete_proxy trim_space or_else decimal
second_taken = refl

normalize_proxies-lost_example :
    normalize_proxies net [] ((second ∷ []) ++ unnamed ∷ [])
    ≡ normalize_proxies net [] ((second ∷ []) ++ [])
unfolding trim_space
normalize_proxies-lost_example =
    normalize_proxies-lost net [] (second ∷ []) [] unnamed refl second_taken
