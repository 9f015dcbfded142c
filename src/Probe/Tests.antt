-- ===== src/Probe/Tests.antt =====
-- Requests about proxies at concrete addresses.
use proxy_for_windows_app.Base.{
  ◌≡◌, refl, true, false, Option, none, some, List, [], ◌∷◌, ok, ℕ_discrete,
}
use proxy_for_windows_app.Base.Text.{
  Text, codes, trim_space, contains, split, Text-discrete, is_space, has_prefix, on_head,
}
use proxy_for_windows_app.Base.Dict.{lookup, insert}
use proxy_for_windows_app.Address.{
  Url, NetFunctions, normalize_proxy_address, proxy_host, from_parts,
}
use proxy_for_windows_app.Config.{ProxyEntry}
use proxy_for_windows_app.Probe.{
  tested_url, first_url, handle_proxy_test, ProxyMetadata, GeoAnswer, handle_proxy_metadata,
  from_cache, looked_up, lookup_country,
}

abbrev home : Url
home = record {
  scheme = codes "socks5";
  host = codes "p.io:80";
  hostname = codes "p.io";
  port = codes "80";
  username = [];
  password = [];
}

abbrev net : NetFunctions
net = record {
  query_escape = λ t. t;
  parse = λ t. some home;
  split_host_port = λ t. some (codes "p.io", codes "80");
  is_ip = λ t. false;
  lookup_ip = λ t. some (none ∷ some (codes "9.8.7.6") ∷ []);
  scan_int = λ t. some 80;
}

abbrev two : List ProxyEntry
two =
    record { id = codes "1"; name = []; url = codes "a:1" }
    ∷ record { id = codes "2"; name = []; url = codes "p.io:80" }
    ∷ []

test_picked : tested_url (codes " ") (codes "2") two ≡ codes "p.io:80"
unfolding tested_url first_url trim_space is_space Text-discrete ℕ_discrete
test_picked = refl

test_reached : handle_proxy_test net (λ host. true) true [] (codes "2") two ≡ 204
unfolding handle_proxy_test tested_url first_url normalize_proxy_address from_parts contains
    has_prefix split on_head trim_space is_space Text-discrete ℕ_discrete
test_reached = refl

-- The service answers once.
abbrev service : Text → Option GeoAnswer
service ip =
    some (record { code = 200; payload = some (codes "success", (codes "Norway", codes "NO")) })

abbrev silent : Text → Option GeoAnswer
silent ip = none

abbrev norway : ProxyMetadata
norway = record { ip = codes "9.8.7.6"; country = codes "Norway"; country_code = codes "NO" }

resolves : proxy_host net (trim_space (codes "p.io:80")) ≡ ok (codes "9.8.7.6")
unfolding proxy_host normalize_proxy_address from_parts trim_space is_space contains has_prefix
    split on_head
resolves = refl

kept :
    lookup Text-discrete
      (codes "9.8.7.6")
      (handle_proxy_metadata net service (codes "p.io:80") []).1
    ≡ some norway
unfolding handle_proxy_metadata from_cache looked_up lookup_country proxy_host
    normalize_proxy_address from_parts trim_space is_space contains has_prefix split on_head
    Text-discrete ℕ_discrete lookup insert
kept = refl
