-- ===== src/Network/Cleanup.antt =====
-- `cleanupTunNetwork`, and repeated calls of `ensureProxyBypassRoute`.
use proxy_for_windows_app.Base.{
  ◌≡◌, refl, ◌∙◌, true, false, Option, none, some, [], ◌∷◌, ok, arith, if◌then◌else◌, is_some,
}
use proxy_for_windows_app.Base.Text.{Text, Text-discrete}
use proxy_for_windows_app.Base.Dict.{Dict, lookup}
use proxy_for_windows_app.Address.{NetFunctions, proxy_host}
use proxy_for_windows_app.Network.{
  delete_default, delete_bypass, Trace, TunState, Net, System, run_command, add_host,
  ensure_bypass_route, delete_hosts, cleanup, cleanup_state,
}
use proxy_for_windows_app.Network.Routes.{default_up, route_up}
use proxy_for_windows_app.Network.Bypass.{Records, ensure_bypass_route-Records, ensure-add_host}

-- Every deletion of a route succeeds.
pub record Deletes (sys : System) : Type 0 where
  pub default_deleted : (t : Trace) → sys.run t delete_default ≡ true
  pub bypass_deleted : (t : Trace) (h : Text) → sys.run t (delete_bypass h) ≡ true

module _ (sys : System) (net : NetFunctions) where
  add_host-present :
      (raw : Text) (s : Net) (host : Text) (now : Option TunState)
      → s.network_state ≡ now
      → Records host now
      → proxy_host net raw ≡ ok host
      → ensure_bypass_route sys net raw s ≡ (ok tt, s)
  unfolding add_host
  add_host-present raw s host none e r found = absurd r
  add_host-present raw s host (some st) e r found =
      ensure-add_host sys net raw s host st found e ∙ ground arith

  -- After a call of `ensureProxyBypassRoute` that succeeded, a second call for the same proxy succeeds
  -- without a command and changes nothing.
  pub ensure_bypass_route_twice :
      (raw : Text) (s : Net)
      → (ensure_bypass_route sys net raw s).0 ≡ ok tt
      → let t = (ensure_bypass_route sys net raw s).1 in
        ensure_bypass_route sys net raw t ≡ (ok tt, t)
  ensure_bypass_route_twice raw s done =
      let (host, found, r) = ensure_bypass_route-Records sys net raw s done in
      add_host-present raw (ensure_bypass_route sys net raw s).1 host _ refl r found

  delete_hosts-default_up :
      (hosts : Dict Text (Unit {0})) (s : Net)
      → default_up (delete_hosts sys net hosts s).trace ≡ default_up s.trace
  unfolding delete_hosts default_up
  delete_hosts-default_up [] s = refl
  delete_hosts-default_up ((h, _) ∷ hosts) s =
      delete_hosts-default_up hosts (run_command sys net (delete_bypass h) s).1 ∙ ground arith

  delete_hosts-route_up :
      Deletes sys
      → (h : Text) (hosts : Dict Text (Unit {0})) (s : Net)
      → route_up h (delete_hosts sys net hosts s).trace
        ≡ (if is_some (lookup Text-discrete h hosts) then false else route_up h s.trace)
  unfolding delete_hosts route_up lookup
  delete_hosts-route_up d h [] s = refl
  delete_hosts-route_up d h ((host, _) ∷ hosts) s =
      delete_hosts-route_up d h hosts (run_command sys net (delete_bypass host) s).1
      ∙ ground (arith, d.bypass_deleted s.trace host)

  -- `cleanupTunNetwork` forgets the tunnel state and, if the system carries out the deletions, leaves
  -- neither the default route nor a bypass route of a recorded host; the route to any other host is
  -- left as it was.
  pub cleanup-removes :
      Deletes sys
      → (s : Net) (st : TunState) → s.network_state ≡ some st
      → let t = cleanup sys net s in
        (t.network_state ≡ none)
        × (default_up t.trace ≡ false)
        × ((h : Text)
            → route_up h t.trace ≡ (
                if is_some (lookup Text-discrete h st.proxy_hosts)
                then false
                else route_up h s.trace))
  unfolding cleanup default_up route_up
  cleanup-removes d s st kept =
      rw (kept, cleanup)
        (
          refl,
          delete_hosts-default_up st.proxy_hosts _ ∙ ground (arith, d.default_deleted s.trace),
          λ h.
              delete_hosts-route_up d h st.proxy_hosts _
              ∙ ground (arith, d.default_deleted s.trace),
        )

  cleanup_state-cleared :
      (st : Option TunState) (s : Net)
      → s.network_state ≡ st
      → (cleanup_state sys net st s).network_state ≡ none
  unfolding cleanup_state
  cleanup_state-cleared none s e = e
  cleanup_state-cleared (some st) s e = refl

  -- After the cleanup no tunnel state is recorded.
  pub cleanup-cleared : (s : Net) → (cleanup sys net s).network_state ≡ none
  unfolding cleanup
  cleanup-cleared s = cleanup_state-cleared s.network_state s refl
