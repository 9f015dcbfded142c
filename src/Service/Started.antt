-- ===== src/Service/Started.antt =====
-- The flag `proxyEngineRunning`, the engine and the network in `handleProxyEngineStart` and
-- `handleProxyEngineStop`.
use mathlib.Core.Path.{subst}
use proxy_for_windows_app.Base.{
  ◌≡◌, ◌∙◌, inl, inr, Bool, true, false, not, none, List, [], ◌∷◌, Result, ok, err, is_ok, is_empty,
  if_intro, Result-cases,
}
use proxy_for_windows_app.Base.Text.{Text}
use proxy_for_windows_app.Network.Bypass.{IsCovered}
use proxy_for_windows_app.Network.Cleanup.{cleanup-cleared}
use proxy_for_windows_app.Config.{ProxyConfig, ProxyEntry}
use proxy_for_windows_app.Apps.{Apps}
use proxy_for_windows_app.Router.{parent_not_found, owner_not_found}
use proxy_for_windows_app.Engine.{EngineError, EngineState, insert_key, start, enable_pid_routing}
use proxy_for_windows_app.Engine.Wired.{
  IsWired, start-pid_router, stop-pid_router, insert_key-pid_router, enable_pid_routing-err,
  enable_pid_routing-IsWired,
}
use proxy_for_windows_app.Service.{
  enabled, start_with, stopped, Service, World, handle_start, handle_stop, start_engine,
  started_engine, engine_key,
}

module _ {P D S : Type 0} where
  abbrev pub EngineReady : Bool → EngineState P D S → Type 0
  EngineReady true e = IsWired e
  EngineReady false e = e.pid_router ≡ none

  -- While the engine counts as running, the tunnel dials through its PID router; otherwise there is no
  -- PID router. A recorded tunnel state means that its routes stand.
  abbrev pub IsReady : Service P D S → Type 0
  IsReady s = EngineReady s.running s.engine × IsCovered s.net

  abbrev pub LeavesReady : {A : Type 0} → A × Service P D S → Type 0
  LeavesReady o = IsReady o.1

module _ {P D S : Type 0} (w : World P D S) where
  enable_pid_routing-EngineReady :
      (e : EngineState P D S)
      → e.pid_router ≡ none
      → EngineReady (is_ok (enable_pid_routing w.parts e).0) (enable_pid_routing w.parts e).1
  enable_pid_routing-EngineReady e off = elim (Result-cases (enable_pid_routing w.parts e).0) [
    | inl (_, done) ↦
        rw done
          (enable_pid_routing-IsWired w.parts (λ _ _. err parent_not_found) e (err owner_not_found)
            off done).0
    | inr (x, failed) ↦ rw (failed, enable_pid_routing-err w.parts e failed) off
  ]

  enabled-EngineReady :
      (r : Result EngineError (Unit {0}) × EngineState P D S)
      → r.1.pid_router ≡ none
      → EngineReady (enabled w r).0 (enabled w r).1
  unfolding enabled
  enabled-EngineReady (err x, e) off = off
  enabled-EngineReady (ok _, e) off = enable_pid_routing-EngineReady e off

  pub start_engine-EngineReady :
      (device proxy : Text) (e : EngineState P D S)
      → e.pid_router ≡ none
      → EngineReady (start_engine w device proxy e).0 (start_engine w device proxy e).1
  unfolding start_engine
  start_engine-EngineReady device proxy e off =
      let k = engine_key w device proxy in
      enabled-EngineReady (start w.parts (insert_key w.parts k e)) (
        start-pid_router w.parts (insert_key w.parts k e) ∙ insert_key-pid_router w.parts k e ∙ off)

  started_engine-IsReady :
      (r : Bool × EngineState P D S) (s : Service P D S)
      → s.running ≡ false
      → IsReady s
      → EngineReady r.0 r.1
      → IsReady (started_engine w r s).1
  unfolding started_engine
  started_engine-IsReady (false, e) s idle (_, covered) ready = (rw idle ready, covered)
  started_engine-IsReady (true, e) s idle (_, covered) ready = (ready, covered)

  pub idle-off : (s : Service P D S) → s.running ≡ false → IsReady s → s.engine.pid_router ≡ none
  idle-off s idle (ready, _) = subst (λ b. EngineReady b s.engine) idle ready

  start_with-IsReady :
      (proxies : List ProxyEntry) (device : Text) (s : Service P D S)
      → IsReady s
      → IsReady (start_with w proxies device s).1
  unfolding start_with
  start_with-IsReady [] device s h = h
  start_with-IsReady (first ∷ proxies) device s h =
      if_intro LeavesReady (is_empty device) _ _ (λ _. h)
        (λ _.
          if_intro LeavesReady s.running _ _ (λ _. h)
            (λ idle.
              started_engine-IsReady (start_engine w device first.url s.engine) s idle h
                (start_engine-EngineReady device first.url s.engine (idle-off s idle h))))

  pub handle_start-IsReady :
      (is_post : Bool) (config : ProxyConfig) (s : Service P D S)
      → IsReady s
      → IsReady (handle_start w is_post config s).1
  unfolding handle_start
  handle_start-IsReady false config s h = h
  handle_start-IsReady true config s h = start_with-IsReady config.proxies config.device s h

  stopped-IsReady : (left : Apps) (s : Service P D S) → IsReady (stopped w left s)
  unfolding stopped
  stopped-IsReady left s =
      (stop-pid_router w.parts s.engine, rw (cleanup-cleared w.sys w.net s.net) tt)

  pub handle_stop-IsReady :
      (is_post : Bool) (left : Apps) (s : Service P D S)
      → IsReady s
      → IsReady (handle_stop w is_post left s).1
  unfolding handle_stop
  handle_stop-IsReady false left s h = h
  handle_stop-IsReady true left s h =
      if_intro LeavesReady (not s.running) _ _ (λ _. h) (λ _. stopped-IsReady left s)
