-- ===== src/Network/Bypass.antt =====
-- `ensureProxyBypassRoute`, and the way to every proxy outside the tunnel.
use proxy_for_windows_app.Base.{
  ◌≡◌, refl, ◌∙◌, inl, inr, true, false, Option, none, some, [], ◌∷◌, ok, err, arith, Bool-cases,
  is_ok, Option-cases, Result-cases,
}
use proxy_for_windows_app.Base.Text.{Text, Text-discrete}
use proxy_for_windows_app.Base.Dict.{lookup, lookup-insert}
use proxy_for_windows_app.Address.{NetFunctions, AddressError, proxy_host}
use proxy_for_windows_app.Network.{
  set_address, set_dns, add_default, add_bypass, Trace, TunState, Net, NetError, host_unresolved,
  System, set_up, add_host, ensure_bypass_route,
}
use proxy_for_windows_app.Network.Routes.{default_up, route_up}

-- While `networkState` is set, the default route stands, and so does the bypass route of each proxy
-- host that it records.
abbrev pub Covers : Option TunState → Trace → Type 0
Covers none t = Unit
Covers (some st) t =
    (default_up t ≡ true)
    × ((h : Text) → lookup Text-discrete h st.proxy_hosts ≡ some tt → route_up h t ≡ true)

abbrev pub IsCovered : Net → Type 0
IsCovered s = Covers s.network_state s.trace

-- What a successful call leaves: the proxy's host is recorded.
abbrev pub Records : Text → Option TunState → Type 0
Records host none = ⊥
Records host (some st) = lookup Text-discrete host st.proxy_hosts ≡ some tt

-- A recorded host of a covered state: the default route and the host's bypass route stand.
pub Covers-Records :
    (st : Option TunState) (t : Trace) (host : Text)
    → Covers st t
    → Records host st
    → (default_up t ≡ true) × (route_up host t ≡ true)
Covers-Records none t host covered recorded = absurd recorded
Covers-Records (some st) t host (default_stands, hosts_stand) recorded =
    (default_stands, hosts_stand host recorded)

module _ (sys : System) (net : NetFunctions) where
  set_up-err :
      (host : Text) (s : Net) {e : NetError}
      → (set_up sys net host s).0 ≡ err e
      → let t = (set_up sys net host s).1 in
        (t.network_state ≡ s.network_state) × (default_up t.trace ≡ default_up s.trace)
  unfolding set_up default_up
  set_up-err host s h = ground arith

  set_up-no_gateway :
      (host : Text) (s : Net)
      → sys.default_gateway s.trace ≡ none
      → is_ok (set_up sys net host s).0 ≡ false
  unfolding set_up
  set_up-no_gateway host s h = ground arith

  set_up-ok :
      (host : Text) (s : Net) (gateway : Text)
      → sys.default_gateway s.trace ≡ some gateway
      → (set_up sys net host s).0 ≡ ok tt
      → (set_up sys net host s).1 ≡ record {
        network_state = some (record { gateway = gateway; proxy_hosts = (host, tt) ∷ [] });
        trace =
            (add_default, true)
            ∷ (add_bypass host gateway, true)
            ∷ (set_dns, true)
            ∷ (set_address, true)
            ∷ s.trace;
      }
  unfolding set_up
  set_up-ok host s gateway g h = ground arith

  set_up-Covers :
      (host : Text) (s : Net) → s.network_state ≡ none → IsCovered (set_up sys net host s).1
  unfolding default_up route_up lookup
  set_up-Covers host s fresh = elim (Result-cases (set_up sys net host s).0) [
    | inr (e, failed) ↦ rw ((set_up-err host s failed).0 ∙ fresh) tt
    | inl (_, done) ↦ elim (Option-cases (sys.default_gateway s.trace)) [
      | inl none_found ↦ ground (arith, set_up-no_gateway host s none_found)
      | inr (gateway, g) ↦ rw (set_up-ok host s gateway g done) (refl, λ h recorded. ground arith)
    ]
  ]

  add_host-Covers :
      (st : TunState) (host : Text) (s : Net)
      → s.network_state ≡ some st
      → Covers (some st) s.trace
      → IsCovered (add_host sys net st host s).1
  unfolding add_host default_up route_up
  add_host-Covers st host s kept (up, hosts) =
      elim (Option-cases (lookup Text-discrete host st.proxy_hosts)) [
        | inr (_, present) ↦ rw (present, add_host) (rw kept (up, hosts))
        | inl absent ↦ elim (Bool-cases (sys.run s.trace (add_bypass host st.gateway))) [
          | inr failed ↦ rw (absent, add_host) (rw failed (rw kept (up, hosts)))
          | inl done ↦
              rw (absent, add_host)
                (rw done (
                  up,
                  λ h recorded.
                      ground (arith, hosts h, lookup-insert Text-discrete h host tt st.proxy_hosts),
                ))
        ]
      ]

  ensure-unresolved :
      (raw : Text) (s : Net) (e : AddressError)
      → proxy_host net raw ≡ err e
      → ensure_bypass_route sys net raw s ≡ (err (host_unresolved e), s)
  unfolding ensure_bypass_route
  ensure-unresolved raw s e bad = ground arith

  ensure-set_up :
      (raw : Text) (s : Net) (host : Text)
      → proxy_host net raw ≡ ok host
      → s.network_state ≡ none
      → ensure_bypass_route sys net raw s ≡ set_up sys net host s
  unfolding ensure_bypass_route
  ensure-set_up raw s host found fresh = ground arith

  pub ensure-add_host :
      (raw : Text) (s : Net) (host : Text) (st : TunState)
      → proxy_host net raw ≡ ok host
      → s.network_state ≡ some st
      → ensure_bypass_route sys net raw s ≡ add_host sys net st host s
  unfolding ensure_bypass_route
  ensure-add_host raw s host st found kept = ground arith

  -- Whatever the system answers, after `ensureProxyBypassRoute` a recorded tunnel state still means
  -- that the default route and the bypass route of every recorded proxy host stand, if it did before.
  pub ensure_bypass_route-IsCovered :
      (raw : Text) (s : Net) → IsCovered s → IsCovered (ensure_bypass_route sys net raw s).1
  ensure_bypass_route-IsCovered raw s h = elim (Result-cases (proxy_host net raw)) [
    | inr (e, bad) ↦ rw (ensure-unresolved raw s e bad) h
    | inl (host, found) ↦ elim (Option-cases s.network_state) [
      | inl fresh ↦ rw (ensure-set_up raw s host found fresh) (set_up-Covers host s fresh)
      | inr (st, kept) ↦
          rw (ensure-add_host raw s host st found kept)
            (add_host-Covers st host s kept (rw kept at h))
    ]
  ]

  add_host-err :
      (st : TunState) (host : Text) (s : Net) {e : NetError}
      → (add_host sys net st host s).0 ≡ err e
      → let t = (add_host sys net st host s).1 in
        (t.network_state ≡ s.network_state) × (default_up t.trace ≡ default_up s.trace)
  unfolding add_host default_up
  add_host-err st host s h = ground arith

  -- If `ensureProxyBypassRoute` returns an error, `networkState` is as before, and the default route
  -- stands exactly if it stood before: a set-up that fails half-way never leaves traffic on mytun.
  pub ensure_bypass_route-err :
      (raw : Text) (s : Net) {e : NetError}
      → (ensure_bypass_route sys net raw s).0 ≡ err e
      → let t = (ensure_bypass_route sys net raw s).1 in
        (t.network_state ≡ s.network_state) × (default_up t.trace ≡ default_up s.trace)
  ensure_bypass_route-err raw s h = elim (Result-cases (proxy_host net raw)) [
    | inr (e, bad) ↦ rw (ensure-unresolved raw s e bad) (refl, refl)
    | inl (host, found) ↦ elim (Option-cases s.network_state) [
      | inl fresh ↦
          let same_call = ensure-set_up raw s host found fresh in
          rw same_call (set_up-err host s (rw same_call at h))
      | inr (st, kept) ↦
          let same_call = ensure-add_host raw s host st found kept in
          rw same_call (add_host-err st host s (rw same_call at h))
    ]
  ]

  set_up-Records :
      (host : Text) (s : Net)
      → (set_up sys net host s).0 ≡ ok tt
      → Records host (set_up sys net host s).1.network_state
  unfolding lookup
  set_up-Records host s done = elim (Option-cases (sys.default_gateway s.trace)) [
    | inl none_found ↦ ground (arith, set_up-no_gateway host s none_found)
    | inr (gateway, g) ↦ rw (set_up-ok host s gateway g done) (ground arith)
  ]

  add_host-Records :
      (st : TunState) (host : Text) (s : Net)
      → s.network_state ≡ some st
      → (add_host sys net st host s).0 ≡ ok tt
      → Records host (add_host sys net st host s).1.network_state
  unfolding add_host
  add_host-Records st host s kept done =
      elim (Option-cases (lookup Text-discrete host st.proxy_hosts)) [
        | inr (_, present) ↦ rw (present, add_host) (rw kept present)
        | inl absent ↦
            rw (absent, add_host)
              (ground (arith, lookup-insert Text-discrete host host tt st.proxy_hosts))
      ]

  -- A call that succeeds resolves the proxy to a host and records it.
  pub ensure_bypass_route-Records :
      (raw : Text) (s : Net)
      → (ensure_bypass_route sys net raw s).0 ≡ ok tt
      → (host : Text) × (proxy_host net raw ≡ ok host)
        × Records host (ensure_bypass_route sys net raw s).1.network_state
  ensure_bypass_route-Records raw s done = elim (Result-cases (proxy_host net raw)) [
    | inr (e, bad) ↦ absurd (ground (arith, ensure-unresolved raw s e bad))
    | inl (host, found) ↦ elim (Option-cases s.network_state) [
      | inl fresh ↦
          let same_call = ensure-set_up raw s host found fresh in
          (host, found, rw same_call (set_up-Records host s (rw same_call at done)))
      | inr (st, kept) ↦
          let same_call = ensure-add_host raw s host st found kept in
          (host, found, rw same_call (add_host-Records st host s kept (rw same_call at done)))
    ]
  ]
