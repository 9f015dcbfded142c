-- ===== src/Probe.antt =====
-- The requests about proxies in netmonitor-gui/main.go: `handleProxyTest`, `handleProxyMetadata` with its
-- cache, and `lookupCountry`.
pub mod Reached
pub mod Cached
mod Tests
use proxy_for_windows_app.Base.{
  ℕ, Bool, true, false, not, ◌&&◌, ◌||◌, Option, none, some, List, [], ◌∷◌, ◌==◌, if◌then◌else◌,
  Result, ok, err, is_empty, ℕ_discrete,
}
use proxy_for_windows_app.Base.Text.{Text, codes, same, trim_space, Text-discrete}
use proxy_for_windows_app.Base.Dict.{Dict, lookup, insert}
use proxy_for_windows_app.Address.{NetFunctions, Url, normalize_proxy_address, proxy_host}
use proxy_for_windows_app.Config.{ProxyEntry}

-- The loop over the proxies: the URL of the first that the ID picks.
unfoldable pub first_url : Text → List ProxyEntry → Text
first_url proxy_id [] = []
first_url proxy_id (p ∷ ps) =
    let rest = first_url proxy_id ps in
    if is_empty proxy_id || same p.id proxy_id then p.url else rest

-- The URL to test: that of the request, or of a proxy of the configuration.
unfoldable pub tested_url : Text → Text → List ProxyEntry → Text
unfolding first_url
tested_url proxy proxy_id ps =
    if is_empty (trim_space proxy) then first_url proxy_id ps else trim_space proxy

test_parsed : (Text → Bool) → Option Url → ℕ
test_parsed dials none = 400
test_parsed dials (some u) = if is_empty u.host then 400 else if dials u.host then 204 else 502

module _ (net : NetFunctions) where
  test_normalized : (Text → Bool) → {E : Type 0} → Result E Text → ℕ
  unfolding test_parsed
  test_normalized dials (err e) = 400
  test_normalized dials (ok url) = test_parsed dials (net.parse url)

  -- `handleProxyTest`: the status. `dials` says which hosts `net.DialTimeout` reaches.
  unfoldable pub handle_proxy_test : (Text → Bool) → Bool → Text → Text → List ProxyEntry → ℕ
  unfolding test_normalized tested_url
  handle_proxy_test dials is_post proxy proxy_id ps =
      if not is_post
      then 405
      else test_normalized dials
          (normalize_proxy_address net.query_escape (tested_url proxy proxy_id ps))

-- `ProxyMetadata`
pub record ProxyMetadata : Type 0 where
  pub ip : Text
  pub country : Text
  pub country_code : Text

-- The answer of the service: its status, and the decoded body.
pub record GeoAnswer : Type 0 where
  pub code : ℕ
  pub payload : Option (Text × (Text × Text))

geo_payload : Text → Option (Text × (Text × Text)) → Option ProxyMetadata
geo_payload ip none = none
geo_payload ip (some (state, (country, code))) =
    if not (same state (codes "success"))
    then none
    else some (record { ip = ip; country = trim_space country; country_code = trim_space code })

-- `lookupCountry`, given what the service answers.
unfoldable pub lookup_country : Text → Option GeoAnswer → Option ProxyMetadata
unfolding geo_payload
lookup_country ip none = none
lookup_country ip (some a) = if not (a.code == 200) then none else geo_payload ip a.payload

-- `proxyMetadataCache`
abbrev pub Cache : Type 0
Cache = Dict Text ProxyMetadata

-- The answer of `handleProxyMetadata`: an error, or metadata.
pub data MetadataReply : Type 0 where
  bad_request : MetadataReply
  metadata : ProxyMetadata → MetadataReply

unfoldable pub looked_up : Text → Option ProxyMetadata → Cache → MetadataReply × Cache
looked_up host none cache =
    (metadata (record { ip = host; country = []; country_code = [] }), cache)
looked_up host (some m) cache = (
  metadata (record { ip = host; country = m.country; country_code = m.country_code }),
  insert Text-discrete host m cache,
)

unfoldable pub from_cache :
    Text → Option ProxyMetadata → (Text → Option GeoAnswer) → Cache → MetadataReply × Cache
unfolding looked_up lookup_country
from_cache host (some m) service cache =
    (metadata (record { ip = host; country = m.country; country_code = m.country_code }), cache)
from_cache host none service cache = looked_up host (lookup_country host (service host)) cache

at_host : {E : Type 0} → Result E Text → (Text → Option GeoAnswer) → Cache → MetadataReply × Cache
unfolding from_cache
at_host (err e) service cache = (bad_request, cache)
at_host (ok host) service cache = from_cache host (lookup Text-discrete host cache) service cache

-- `handleProxyMetadata`; `service` is what `ip-api.com` answers for an address.
unfoldable pub handle_proxy_metadata :
    NetFunctions → (Text → Option GeoAnswer) → Text → Cache → MetadataReply × Cache
unfolding at_host
handle_proxy_metadata net service raw cache =
    if is_empty (trim_space raw)
    then (bad_request, cache)
    else at_host (proxy_host net (trim_space raw)) service cache
