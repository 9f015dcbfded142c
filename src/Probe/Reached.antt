-- ===== src/Probe/Reached.antt =====
-- What a test of a proxy says.
use proxy_for_windows_app.Base.{
  ℕ, ◌≡◌, ◌≢◌, refl, ◌⊎◌, inl, inr, Bool, true, Option, none, some, List, [], ◌∷◌, if◌then◌else◌,
  Result, ok, err, is_empty, arith,
}
use proxy_for_windows_app.Base.Text.{Text}
use proxy_for_windows_app.Address.{NetFunctions, Url, AddressError, normalize_proxy_address}
use proxy_for_windows_app.Config.{ProxyEntry}
use proxy_for_windows_app.Probe.{tested_url, test_parsed, test_normalized, handle_proxy_test}

-- The status for a host: 204 where it is reached, 502 where not, and 400 where the address has no host.
unfoldable pub Tells : NetFunctions → (Text → Bool) → Result AddressError Text → ℕ → Type 0
Tells net dials (err e) status = status ≡ 400
Tells net dials (ok url) status =
    ((u : Url) × (net.parse url ≡ some u)
      × (u.host ≢ [])
      × (status ≡ (if dials u.host then 204 else 502)))
    ⊎ ((status ≡ 400)
        × ((net.parse url ≡ none) ⊎ ((u : Url) × (net.parse url ≡ some u) × (u.host ≡ []))))

parsed-Tells :
    (net : NetFunctions) (dials : Text → Bool) (url : Text) (o : Option Url)
    → net.parse url ≡ o
    → Tells net dials (ok url) (test_parsed dials o)
unfolding test_parsed Tells
parsed-Tells net dials url none e = inr (refl, inl e)
parsed-Tells net dials url (some u) e = at_host u.host refl
  where
    at_host :
        (host : Text)
        → u.host ≡ host
        → Tells net dials (ok url) (if is_empty host then 400 else if dials host then 204 else 502)
    at_host [] h = inr (refl, inr (u, e, h))
    at_host (c ∷ s) h = inl (u, e, (λ none_given. ground (arith, h, none_given)), rw h refl)

normalized-Tells :
    (net : NetFunctions) (dials : Text → Bool) (r : Result AddressError Text)
    → Tells net dials r (test_normalized net dials r)
unfolding test_normalized Tells
normalized-Tells net dials (err e) = refl
normalized-Tells net dials (ok url) = parsed-Tells net dials url (net.parse url) refl

-- A test of a proxy answers 204 exactly where the host of its normalised URL is reached, 502 where it is
-- not, and 400 where the address has no normal form or no host; the address is that of the request, or
-- the URL of the first proxy that its ID picks.
pub handle_proxy_test-Tells :
    (net : NetFunctions) (dials : Text → Bool) (proxy proxy_id : Text) (ps : List ProxyEntry)
    → Tells net dials
        (normalize_proxy_address net.query_escape (tested_url proxy proxy_id ps))
        (handle_proxy_test net dials true proxy proxy_id ps)
unfolding handle_proxy_test
handle_proxy_test-Tells net dials proxy proxy_id ps =
    normalized-Tells net dials
      (normalize_proxy_address net.query_escape (tested_url proxy proxy_id ps))
