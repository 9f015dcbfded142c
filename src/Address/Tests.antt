-- ===== src/Address/Tests.antt =====
-- Proxy addresses at concrete texts.
use proxy_for_windows_app.Base.{◌≡◌, refl, false, none, some, [], ◌∷◌, ok}
use proxy_for_windows_app.Base.Text.{Text, codes, trim_space, contains, split}
use proxy_for_windows_app.Address.{
  Url, NetFunctions, normalize_proxy_address, proxy_display_name, proxy_host, parse_browser_proxy,
}
use proxy_for_windows_app.Address.FourPart.{IsFourPart}

abbrev home : Url
home = record {
  scheme = codes "socks5";
  host = codes "p.io:80";
  hostname = codes "p.io";
  port = codes "80";
  username = [];
  password = [];
}

abbrev net : NetFunctions
net = record {
  query_escape = λ t. t;
  parse = λ t. some home;
  split_host_port = λ t. some (codes "p.io", codes "80");
  is_ip = λ t. false;
  lookup_ip = λ t. some (none ∷ some (codes "9.8.7.6") ∷ []);
  scan_int = λ t. some 80;
}

plain_is_socks :
    normalize_proxy_address (λ t. t) (codes " p.io:80 ") ≡ ok (codes "socks5://p.io:80")
unfolding normalize_proxy_address trim_space contains split
plain_is_socks = refl

display_hides : proxy_display_name net (codes "h:1:u:p") ≡ codes "h:1"
unfolding proxy_display_name trim_space contains split
display_hides = refl

resolves : proxy_host net (codes "p.io:80") ≡ ok (codes "9.8.7.6")
unfolding proxy_host normalize_proxy_address trim_space contains split
resolves = refl

browser_port :
    parse_browser_proxy net (codes "p.io:80")
    ≡ ok (record {
      scheme = codes "socks5";
      host = codes "p.io";
      port = 80;
      username = [];
      password = [];
    })
unfolding parse_browser_proxy normalize_proxy_address trim_space contains split
browser_port = refl

abbrev plain : Text
plain = codes "socks5://p.io:80"

abbrev account : IsFourPart (codes "h") (codes "1") (codes "u") (codes "p")
unfolding trim_space contains
account = record {
  host_lacks = (refl, tt);
  port_lacks = (refl, tt);
  user_lacks = (refl, tt);
  pass_lacks = (refl, tt);
  host_given = refl;
  trimmed = refl;
  plain = refl;
}
