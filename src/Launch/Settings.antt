-- ===== src/Launch/Settings.antt =====
-- The settings of VS Code that `buildVSCodeCommand` writes.
use proxy_for_windows_app.Base.{
  ◌≡◌, ◌≢◌, refl, ◌∙◌, inl, inr, Bool, false, ◌&&◌, Option, none, some, arith, if◌then◌else◌,
  Option-cases, ℕ_discrete,
}
use proxy_for_windows_app.Base.Text.{Text, codes, same, Text-discrete}
use proxy_for_windows_app.Base.Dict.{lookup, insert, lookup-insert, lookup-erase}
use proxy_for_windows_app.Launch.{
  Json, text, flag, raw, Settings, drop_if, remove_legacy_overrides, with_proxy,
}

abbrev pub at : Text → Settings → Option Json
at key settings = lookup Text-discrete key settings

abbrev is_text : Text → Option Json → Bool
is_text value none = false
is_text value (some (text t)) = same t value
is_text value (some (flag b)) = false
is_text value (some (raw t)) = false

drop_if-at :
    (j key value : Text) (settings : Settings)
    → at j (drop_if key value settings)
      ≡ (if same j key && is_text value (at key settings) then none else at j settings)
unfolding drop_if
drop_if-at j key value settings = elim (Option-cases (at key settings)) [
  | inl absent ↦ ground arith
  | inr (text t, here) ↦ ground (arith, lookup-erase Text-discrete j key settings)
  | inr (flag b, here) ↦ ground arith
  | inr (raw t, here) ↦ ground arith
]

drop_if-other :
    (j key value : Text) (settings : Settings)
    → j ≢ key
    → at j (drop_if key value settings) ≡ at j settings
drop_if-other j key value settings other = ground (arith, drop_if-at j key value settings)

remove_legacy_overrides-other :
    (j : Text) (settings : Settings)
    → j ≢ codes "window.restoreWindows"
    → j ≢ codes "window.openFoldersInNewWindow"
    → j ≢ codes "window.openFilesInNewWindow"
    → at j (remove_legacy_overrides settings) ≡ at j settings
unfolding remove_legacy_overrides
remove_legacy_overrides-other j settings a b c =
    drop_if-other j _ _ _ c ∙ drop_if-other j _ _ _ b ∙ drop_if-other j _ _ _ a

insert-other :
    (j key : Text) (x : Json) (settings : Settings)
    → j ≢ key
    → at j (insert Text-discrete key x settings) ≡ at j settings
insert-other j key x settings other = ground (arith, lookup-insert Text-discrete j key x settings)

insert_self :
    (key : Text) (x : Json) (settings : Settings)
    → at key (insert Text-discrete key x settings) ≡ some x
insert_self key x settings = ground (arith, lookup-insert Text-discrete key key x settings)

-- Every setting but the three of the proxy and the three old window settings stays as it was.
pub with_proxy-frame :
    (j local_proxy : Text) (settings : Settings)
    → j ≢ codes "http.proxy"
    → j ≢ codes "http.proxySupport"
    → j ≢ codes "http.proxyStrictSSL"
    → j ≢ codes "window.restoreWindows"
    → j ≢ codes "window.openFoldersInNewWindow"
    → j ≢ codes "window.openFilesInNewWindow"
    → at j (with_proxy local_proxy settings) ≡ at j settings
unfolding with_proxy
with_proxy-frame j local_proxy settings p u t a b c =
    remove_legacy_overrides-other j _ a b c
    ∙ insert-other j _ _ _ t
    ∙ insert-other j _ _ _ u
    ∙ insert-other j _ _ _ p

distinct : (s t : Text) → same s t ≡ false → s ≢ t
distinct s t e h = ground arith

-- Whatever the file held, VS Code is told to use the local proxy for everything.
pub with_proxy-at :
    (local_proxy : Text) (settings : Settings)
    → (at (codes "http.proxy") (with_proxy local_proxy settings) ≡ some (text local_proxy))
      × (at (codes "http.proxySupport") (with_proxy local_proxy settings)
          ≡ some (text (codes "override")))
      × (at (codes "http.proxyStrictSSL") (with_proxy local_proxy settings) ≡ some (flag false))
unfolding with_proxy Text-discrete ℕ_discrete
with_proxy-at local_proxy settings = (
  remove_legacy_overrides-other (codes "http.proxy") _ (distinct _ _ refl) (distinct _ _ refl)
        (distinct _ _ refl)
      ∙ insert-other (codes "http.proxy") _ _ _ (distinct _ _ refl)
      ∙ insert-other (codes "http.proxy") _ _ _ (distinct _ _ refl)
      ∙ insert_self (codes "http.proxy") _ _,
  remove_legacy_overrides-other (codes "http.proxySupport") _ (distinct _ _ refl)
        (distinct _ _ refl) (distinct _ _ refl)
      ∙ insert-other (codes "http.proxySupport") _ _ _ (distinct _ _ refl)
      ∙ insert_self (codes "http.proxySupport") _ _,
  remove_legacy_overrides-other (codes "http.proxyStrictSSL") _ (distinct _ _ refl)
        (distinct _ _ refl) (distinct _ _ refl)
      ∙ insert_self (codes "http.proxyStrictSSL") _ _,
)
