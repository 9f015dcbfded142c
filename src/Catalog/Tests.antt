-- ===== src/Catalog/Tests.antt =====
-- Requests on a configuration file at concrete data.
use proxy_for_windows_app.Base.{ℕ, ◌≡◌, refl, false, none, some, [], err}
use proxy_for_windows_app.Base.Text.{Text, codes}
use proxy_for_windows_app.Address.{NetFunctions}
use proxy_for_windows_app.Config.{Application}
use proxy_for_windows_app.Catalog.{no_config, load_proxy_config}

abbrev net : NetFunctions
net = record {
  query_escape = λ t. t;
  parse = λ t. none;
  split_host_port = λ t. none;
  is_ip = λ t. false;
  lookup_ip = λ t. none;
  scan_int = λ t. none;
}

abbrev ids : ℕ → ℕ → Text
ids call n = codes "u"

abbrev game : Application
game = record {
  id = [];
  name = [];
  path = codes "C:\\g.exe";
  process_name = [];
  proxy_id = [];
  proxy = [];
}

-- A file that is not JSON gives a configuration without a device.
no_device : load_proxy_config net (λ p. 2) ids 0 (some (err tt)) ≡ no_config
unfolding load_proxy_config
no_device = refl
