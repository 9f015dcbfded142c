-- ===== src/Config.antt =====
-- The configuration of netmonitor-gui/main.go and `normalizeProxyConfig`. The calls of
-- `uuid.NewString` are numbered, and `new_id` gives the answer of each.
pub mod Proxies
pub mod Applications
pub mod Lost
mod Tests
use proxy_for_windows_app.Base.{
  ℕ, zero, suc, ◌+◌, ◌/◌, ◌%◌, ◌≡◌, Bool, true, false, not, ◌&&◌, ◌||◌, Option, none, some, List,
  [], ◌∷◌, ◌++◌, ltb, ◌==◌, if◌then◌else◌, is_some, is_empty, length,
}
use proxy_for_windows_app.Base.Text.{Text, codes, same, trim_space, Text-discrete}
use proxy_for_windows_app.Base.Dict.{Dict, lookup, insert}
use proxy_for_windows_app.Base.Digits.{decimal}
use proxy_for_windows_app.Base.FilePath.{base_name, ext, trim_suffix}
use proxy_for_windows_app.Address.{NetFunctions, proxy_display_name}

pub record ProxyEntry : Type 0 where
  pub id : Text
  pub name : Text
  pub url : Text

pub record Application : Type 0 where
  pub id : Text
  pub name : Text
  pub path : Text
  pub process_name : Text
  pub proxy_id : Text
  pub proxy : Text

pub record ProxyConfig : Type 0 where
  pub proxy_url : Text
  pub device : Text
  pub processes : List Text
  pub proxies : List ProxyEntry
  pub applications : List Application

abbrev pub default_device : Text
default_device = codes "tun://mytun"

-- `fmt.Sprintf("proxy-%d", len(proxies)+1)`
unfoldable pub proxy_id : List ProxyEntry → Text
unfolding decimal
proxy_id proxies = codes "proxy-" ++ decimal (length proxies + 1)

unfoldable pub or_else : Text → Text → Text
or_else [] other = other
or_else (c ∷ s) other = c ∷ s

unfoldable pub normalize_device : Text → Text
normalize_device device =
    if is_empty device || same device (codes "wintun://mytun") then default_device else device

-- The variables `proxies` and `proxyIDs`.
pub record Kept : Type 0 where
  pub proxies : List ProxyEntry
  pub proxy_ids : Dict Text (Unit {0})

-- An entry as the loop over `config.Proxies` completes it.
unfoldable pub complete_proxy : NetFunctions → List ProxyEntry → ProxyEntry → ProxyEntry
unfolding or_else proxy_id
complete_proxy net proxies item =
    let url = trim_space item.url in
    record {
      id = or_else (trim_space item.id) (proxy_id proxies);
      name = or_else (trim_space item.name) (proxy_display_name net url);
      url = url;
    }

unfoldable pub add_proxy : ProxyEntry → Kept → Kept
add_proxy item kept =
    if is_some (lookup Text-discrete item.id kept.proxy_ids) then kept else record {
      proxies = kept.proxies ++ item ∷ [];
      proxy_ids = insert Text-discrete item.id tt kept.proxy_ids;
    }

-- The body of the loop over `config.Proxies`.
unfoldable pub take_proxy : NetFunctions → Kept → ProxyEntry → Kept
unfolding add_proxy
take_proxy net kept item =
    if is_empty (trim_space item.url)
    then kept
    else add_proxy (complete_proxy net kept.proxies item) kept

unfoldable pub take_proxies : NetFunctions → Kept → List ProxyEntry → Kept
take_proxies net kept [] = kept
take_proxies net kept (item ∷ items) = take_proxies net (take_proxy net kept item) items

-- The single proxy of an old configuration.
legacy_proxy : Text → Kept → Kept
legacy_proxy [] kept = kept
legacy_proxy (c ∷ s) kept = elim kept.proxies [
  | item ∷ items ↦ kept
  | [] ↦ record {
    proxies = record { id = codes "proxy-1"; name = codes "Основной"; url = c ∷ s } ∷ [];
    proxy_ids = insert Text-discrete (codes "proxy-1") tt kept.proxy_ids;
  }
]

unfoldable pub normalize_proxies : NetFunctions → Text → List ProxyEntry → Kept
unfolding legacy_proxy
normalize_proxies net proxy_url items =
    legacy_proxy proxy_url (take_proxies net (record { proxies = []; proxy_ids = [] }) items)

first_id : List ProxyEntry → Text
first_id [] = []
first_id (item ∷ items) = item.id

url_of : Text → Text → List ProxyEntry → Text
url_of id proxy [] = proxy
url_of id proxy (item ∷ items) =
    let rest = url_of id proxy items in if same item.id id then item.url else rest

-- `app.Proxy` and then `app.ProxyID`, as the loop over `config.Applications` leaves them.
unfoldable pub choose_proxy : Text → Text → List ProxyEntry → Text
unfolding url_of
choose_proxy id proxy proxies =
    if is_empty proxy && not (is_empty id) then url_of id proxy proxies else proxy

unfoldable pub choose_proxy_id : Text → Kept → Text
unfolding first_id
choose_proxy_id id kept =
    let given = if is_empty id then first_id kept.proxies else id in
    if is_empty given
      || is_some (lookup Text-discrete given kept.proxy_ids)
      || is_empty kept.proxies
    then given
    else first_id kept.proxies

unfoldable pub normalize_application : (Text → ℕ) → Kept → Text → Application → Option Application
normalize_application volume_len kept fresh app =
    let path = trim_space app.path in
    let base = base_name volume_len path in
    let process_name = trim_space app.process_name in
    let process_name' =
      if is_empty process_name && not (is_empty path) then base else process_name in
    let name = trim_space app.name in
    let name' =
      if is_empty name && not (is_empty path) then trim_suffix base (ext path) else name in
    let proxy_id = trim_space app.proxy_id in
    if is_empty process_name'
    then none
    else some (record {
      id = or_else (trim_space app.id) fresh;
      name = name';
      path = path;
      process_name = process_name';
      proxy_id = choose_proxy_id proxy_id kept;
      proxy = choose_proxy proxy_id (trim_space app.proxy) kept.proxies;
    })

-- The loop over `config.Applications`; `n` calls of `uuid.NewString` were made before.
unfoldable pub normalize_applications :
    (Text → ℕ) → (ℕ → Text) → Kept → ℕ → List Application → List Application
normalize_applications volume_len new_id kept n [] = []
normalize_applications volume_len new_id kept n (app ∷ apps) =
    let rest =
      normalize_applications volume_len new_id kept
        (if is_empty (trim_space app.id) then suc n else n) apps in
    elim (normalize_application volume_len kept (new_id n) app) [ none ↦ rest | some a ↦ a ∷ rest ]

-- `normalizeProxyConfig`
unfoldable pub normalize_proxy_config :
    NetFunctions → (Text → ℕ) → (ℕ → Text) → ProxyConfig → ProxyConfig
unfolding normalize_device
normalize_proxy_config net volume_len new_id config =
    let proxy_url = trim_space config.proxy_url in
    let kept = normalize_proxies net proxy_url config.proxies in
    record {
      proxy_url = proxy_url;
      device = normalize_device (trim_space config.device);
      processes = [];
      proxies = kept.proxies;
      applications = normalize_applications volume_len new_id kept 0 config.applications;
    }
