-- ===== src/Config/Lost.antt =====
-- The IDs that `normalizeProxyConfig` makes up for proxies.
use proxy_for_windows_app.Base.{◌≡◌, refl, ap, ◌∙◌, true, List, [], ◌∷◌, ◌++◌, arith, is_some}
use proxy_for_windows_app.Base.Text.{Text, Text-discrete, trim_space}
use proxy_for_windows_app.Base.Dict.{lookup}
use proxy_for_windows_app.Address.{NetFunctions}
use proxy_for_windows_app.Config.{
  ProxyEntry, Kept, or_else, proxy_id, complete_proxy, add_proxy, take_proxy, take_proxies,
  normalize_proxies,
}

-- What the loop has kept of some entries.
abbrev pub kept_of : NetFunctions → List ProxyEntry → Kept
kept_of net items = take_proxies net (record { proxies = []; proxy_ids = [] }) items

take_proxies-append :
    (net : NetFunctions) (kept : Kept) (items others : List ProxyEntry)
    → take_proxies net kept (items ++ others)
      ≡ take_proxies net (take_proxies net kept items) others
unfolding take_proxies
take_proxies-append net kept [] others = refl
take_proxies-append net kept (item ∷ items) others =
    take_proxies-append net (take_proxy net kept item) items others

complete_proxy-unnamed :
    (net : NetFunctions) (ps : List ProxyEntry) (p : ProxyEntry)
    → trim_space p.id ≡ []
    → (complete_proxy net ps p).id ≡ proxy_id ps
unfolding complete_proxy or_else
complete_proxy-unnamed net ps p unnamed = rw unnamed refl

take_proxy-unnamed :
    (net : NetFunctions) (kept : Kept) (p : ProxyEntry)
    → trim_space p.id ≡ []
    → is_some (lookup Text-discrete (proxy_id kept.proxies) kept.proxy_ids) ≡ true
    → take_proxy net kept p ≡ kept
unfolding take_proxy add_proxy
take_proxy-unnamed net kept p unnamed taken =
    let id = complete_proxy-unnamed net kept.proxies p unnamed in
    ground (arith, ap (λ t. is_some (lookup Text-discrete t kept.proxy_ids)) id ∙ taken)

-- An entry without an ID is lost if the ID that would be made up for it, from the number of the entries
-- kept before it, is one of theirs: the same is kept as of the list without the entry.
pub normalize_proxies-lost :
    (net : NetFunctions) (url : Text) (before after : List ProxyEntry) (item : ProxyEntry)
    → trim_space item.id ≡ []
    → is_some (
        lookup Text-discrete (proxy_id (kept_of net before).proxies) (kept_of net before).proxy_ids)
      ≡ true
    → normalize_proxies net url (before ++ item ∷ after)
      ≡ normalize_proxies net url (before ++ after)
unfolding normalize_proxies take_proxies
normalize_proxies-lost net url before after item unnamed taken =
    rw
      (
        take_proxies-append net (record { proxies = []; proxy_ids = [] }) before (item ∷ after),
        take_proxies-append net (record { proxies = []; proxy_ids = [] }) before after,
        take_proxy-unnamed net (kept_of net before) item unnamed taken,
      )
      refl
