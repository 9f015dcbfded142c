-- ===== src/Config/Applications.antt =====
-- The list of applications that `normalizeProxyConfig` leaves.
use proxy_for_windows_app.Base.{
  ℕ, suc, ◌≡◌, refl, ◌||◌, inl, inr, true, false, some, List, [], ◌∷◌, arith, if◌then◌else◌,
  is_empty, All, Option-cases, Bool-cases,
}
use proxy_for_windows_app.Base.Text.{Text, codes, same, trim_space}
use proxy_for_windows_app.Address.{NetFunctions}
use proxy_for_windows_app.Config.{
  ProxyEntry, Application, ProxyConfig, Kept, first_id, choose_proxy_id, normalize_proxies,
  normalize_application, normalize_applications, normalize_proxy_config,
}
use proxy_for_windows_app.Config.Proxies.{has_id, IsKept, IsGiven, normalize_proxies-IsKept}

-- An application has a process name, and names one of the proxies if there are any.
abbrev pub IsBound : List ProxyEntry → Application → Type 0
IsBound ps app =
    (is_empty app.process_name ≡ false) × ((is_empty ps || has_id app.proxy_id ps) ≡ true)

first_id-has_id : (ps : List ProxyEntry) → is_empty ps ≡ false → has_id (first_id ps) ps ≡ true
unfolding first_id
first_id-has_id [] h = cc h
first_id-has_id (p ∷ ps) h = ground arith

first_id-given :
    (ps : List ProxyEntry) → is_empty ps ≡ false → All IsGiven ps → is_empty (first_id ps) ≡ false
unfolding first_id
first_id-given [] h g = cc h
first_id-given (p ∷ ps) h g = g.0.0

choose_proxy_id-has_id :
    (id : Text) (k : Kept)
    → IsKept k
    → is_empty k.proxies ≡ false
    → has_id (choose_proxy_id id k) k.proxies ≡ true
unfolding choose_proxy_id
choose_proxy_id-has_id id k h some_kept = ground (
  arith,
  first_id-has_id k.proxies some_kept,
  first_id-given k.proxies some_kept h.given,
  h.recorded id,
  h.recorded (first_id k.proxies),
)

choose_proxy_id-bound :
    (id : Text) (k : Kept)
    → IsKept k
    → (is_empty k.proxies || has_id (choose_proxy_id id k) k.proxies) ≡ true
choose_proxy_id-bound id k h = elim (Bool-cases (is_empty k.proxies)) [
  | inl none_kept ↦ rw none_kept refl
  | inr some_kept ↦ rw some_kept (choose_proxy_id-has_id id k h some_kept)
]

normalize_application-IsBound :
    (volume_len : Text → ℕ) (k : Kept) (fresh : Text) (app a : Application)
    → IsKept k
    → normalize_application volume_len k fresh app ≡ some a
    → IsBound k.proxies a
unfolding normalize_application
normalize_application-IsBound volume_len k fresh app a h e =
    (ground arith, ground (arith, choose_proxy_id-bound (trim_space app.proxy_id) k h))

abbrev next : Application → ℕ → ℕ
next app n = if is_empty (trim_space app.id) then suc n else n

module _ (volume_len : Text → ℕ) (new_id : ℕ → Text) (k : Kept) (h : IsKept k) where
  normalize_applications-IsBound :
      (apps : List Application) (n : ℕ)
      → All (IsBound k.proxies) (normalize_applications volume_len new_id k n apps)
  unfolding normalize_applications
  normalize_applications-IsBound [] n = tt
  normalize_applications-IsBound (app ∷ apps) n =
      elim (Option-cases (normalize_application volume_len k (new_id n) app)) [
        | inl dropped ↦
            rw (dropped, normalize_applications) (normalize_applications-IsBound apps (next app n))
        | inr (a, taken) ↦
            rw (taken, normalize_applications)
              (
                normalize_application-IsBound volume_len k (new_id n) app a h taken,
                normalize_applications-IsBound apps (next app n),
              )
      ]

-- After `normalizeProxyConfig` the device is given and not the old default, no old process names are
-- left, and every application has a process name and, if there is a proxy at all, names one of them.
pub normalize_proxy_config-IsBound :
    (net : NetFunctions) (volume_len : Text → ℕ) (new_id : ℕ → Text) (config : ProxyConfig)
    → let c = normalize_proxy_config net volume_len new_id config in
      (is_empty c.device ≡ false)
      × (same c.device (codes "wintun://mytun") ≡ false)
      × (c.processes ≡ [])
      × All (IsBound c.proxies) c.applications
unfolding normalize_proxy_config
normalize_proxy_config-IsBound net volume_len new_id config =
    let k = normalize_proxies net (trim_space config.proxy_url) config.proxies in
    (
      ground arith,
      ground arith,
      refl,
      normalize_applications-IsBound volume_len new_id k
          (normalize_proxies-IsKept net _ config.proxies) config.applications 0,
    )
