-- ===== src/Address.antt =====
-- Proxy addresses as the user writes them: `normalizeProxyAddress` and its callers in
-- netmonitor-gui/main.go. The functions of `net`, `net/url` and `fmt` that they call are fields of
-- `NetFunctions`; an error of theirs is `none`.
pub mod Laws
pub mod FourPart
mod Tests
use proxy_for_windows_app.Base.{
  ℕ, Bool, true, false, ◌||◌, Option, none, some, List, [], ◌∷◌, ◌++◌, Result, ok, err,
  if◌then◌else◌, is_empty,
}
use proxy_for_windows_app.Base.Text.{Text, codes, trim_space, contains, split}

-- The parts of a `url.URL` that the program reads.
pub record Url : Type 0 where
  pub scheme : Text
  pub host : Text
  pub hostname : Text
  pub port : Text
  pub username : Text
  pub password : Text

pub record NetFunctions : Type 0 where
  pub query_escape : Text → Text
  pub parse : Text → Option Url
  -- `net.SplitHostPort`
  pub split_host_port : Text → Option (Text × Text)
  -- `net.ParseIP(host) != nil`
  pub is_ip : Text → Bool
  -- `net.LookupIP`: each address as its IPv4 text, if it has one
  pub lookup_ip : Text → Option (List (Option Text))
  -- `fmt.Sscan` into an `int`
  pub scan_int : Text → Option ℕ

pub data AddressError : Type 0 where
  proxy_required four_part_format parse_failed split_failed lookup_failed no_ipv4 : AddressError
  host_and_port_required invalid_port : AddressError

abbrev pub scheme_mark : Text
scheme_mark = codes "://"

-- `fmt.Sprintf("http://%s:%s@%s:%s", user, pass, host, port)`
abbrev pub http_url : Text → Text → Text → Text → Text
http_url user pass host port = codes "http://" ++ user ++ b':' ∷ pass ++ b'@' ∷ host ++ b':' ∷ port

-- What `normalizeProxyAddress` makes of the parts between the colons.
unfoldable pub from_parts : (Text → Text) → Text → List Text → Result AddressError Text
from_parts escape raw (host ∷ port ∷ user ∷ pass ∷ []) =
    if is_empty host || is_empty port || is_empty user || is_empty pass
    then err four_part_format
    else ok (http_url (escape user) (escape pass) host port)
from_parts escape raw parts = ok (codes "socks5://" ++ raw)

normalize_trimmed : (Text → Text) → Text → Result AddressError Text
unfolding from_parts
normalize_trimmed escape [] = err proxy_required
normalize_trimmed escape (c ∷ s) =
    if contains (c ∷ s) scheme_mark
    then ok (c ∷ s)
    else from_parts escape (c ∷ s) (split b':' (c ∷ s))

unfoldable pub normalize_proxy_address : (Text → Text) → Text → Result AddressError Text
unfolding normalize_trimmed
normalize_proxy_address escape raw = normalize_trimmed escape (trim_space raw)

unfoldable pub normalized_proxy_or_raw : (Text → Text) → Text → Text
normalized_proxy_or_raw escape raw = elim (normalize_proxy_address escape raw) [
  | ok normalized ↦ normalized
  | err e ↦ raw
]

-- The end of `proxyDisplayName`.
unfoldable pub display_host : NetFunctions → Text → Text
display_host net raw = elim (normalize_proxy_address net.query_escape raw) [
  | err e ↦ raw
  | ok normalized ↦ elim (net.parse normalized) [ none ↦ raw | some u ↦ u.host ]
]

display_parts : NetFunctions → Text → List Text → Text
display_parts net raw (host ∷ port ∷ rest) = host ++ b':' ∷ port
display_parts net raw parts = display_host net raw

display_trimmed : NetFunctions → Text → Text
unfolding display_parts
display_trimmed net [] = codes "Новый прокси"
display_trimmed net (c ∷ s) =
    if contains (c ∷ s) scheme_mark
    then display_host net (c ∷ s)
    else display_parts net (c ∷ s) (split b':' (c ∷ s))

unfoldable pub proxy_display_name : NetFunctions → Text → Text
unfolding display_trimmed
proxy_display_name net raw = display_trimmed net (trim_space raw)

-- The loop of `proxyHost` over the addresses of a host.
unfoldable pub first_ipv4 : List (Option Text) → Result AddressError Text
first_ipv4 [] = err no_ipv4
first_ipv4 (some ip ∷ ips) = ok ip
first_ipv4 (none ∷ ips) = first_ipv4 ips

resolve_host : NetFunctions → Text → Result AddressError Text
unfolding first_ipv4
resolve_host net host =
    if net.is_ip host
    then ok host
    else elim (net.lookup_ip host) [ none ↦ err lookup_failed | some ips ↦ first_ipv4 ips ]

unfoldable pub proxy_host : NetFunctions → Text → Result AddressError Text
unfolding resolve_host
proxy_host net raw = elim (normalize_proxy_address net.query_escape raw) [
  | err e ↦ err e
  | ok normalized ↦ elim (net.parse normalized) [
    | none ↦ err parse_failed
    | some u ↦ elim (net.split_host_port u.host) [
      | none ↦ err split_failed
      | some (host, port) ↦ resolve_host net host
    ]
  ]
]

pub record BrowserProxySettings : Type 0 where
  pub scheme : Text
  pub host : Text
  pub port : ℕ
  pub username : Text
  pub password : Text

browser_settings : NetFunctions → Url → Result AddressError BrowserProxySettings
browser_settings net u =
    if is_empty u.hostname || is_empty u.port
    then err host_and_port_required
    else elim (net.scan_int u.port) [
      | none ↦ err invalid_port
      | some port ↦ ok (record {
        scheme = u.scheme;
        host = u.hostname;
        port = port;
        username = u.username;
        password = u.password;
      })
    ]

unfoldable pub parse_browser_proxy : NetFunctions → Text → Result AddressError BrowserProxySettings
unfolding browser_settings
parse_browser_proxy net raw = elim (normalize_proxy_address net.query_escape raw) [
  | err e ↦ err e
  | ok normalized ↦ elim (net.parse normalized) [
    | none ↦ err parse_failed
    | some u ↦ browser_settings net u
  ]
]
