-- ===== src/Service/Race/Alone.antt =====
-- The steps of one request to launch an application, when no other request runs.
use proxy_for_windows_app.Base.{
  is_ok, Bool, ℕ, suc, zero, ◌≡◌, refl, sym, ap, ◌∙◌, true, false, Result, ok, err, arith,
}
use proxy_for_windows_app.Base.Text.{Text}
use proxy_for_windows_app.Network.{Net, NetError, ensure_bypass_route}
use proxy_for_windows_app.Engine.{EngineError, EngineState, insert_key, start, enable_pid_routing}
use proxy_for_windows_app.Service.{
  Service, World, engine_key, configured, bypass, prepare_engine, autostart, autostarted,
  start_engine, enabled,
}
use proxy_for_windows_app.Service.Race.{
  Phase, begun, flag_read, engine_started, routing_enabled, past, called, ended, advance,
}

module _ {P D S : Type 0} (w : World P D S) (device proxy : Text) where
  -- So many steps of the request.
  advance_by : ℕ → Phase × Service P D S → Phase × Service P D S
  unfolding advance
  advance_by zero o = o
  advance_by (suc n) (p, s) = advance_by n (advance w device proxy p s)

  -- The outcome of the handler's preparation.
  abbrev outcome : Bool × Service P D S → Phase × Service P D S
  outcome (fine, s) = (past fine, s)

  from_configured :
      (r : Result NetError (Unit {0}) × Net) (e : EngineState P D S) (s : Service P D S)
      → ended w device (configured w r e (record s { engine = e })) ≡ outcome (configured w r e s)
  unfolding ended configured
  from_configured (err x, n) e s = refl
  from_configured (ok _, n) e s = refl

  from_enabled :
      (r : Result EngineError (Unit {0}) × EngineState P D S) (e : EngineState P D S)
      (s : Service P D S)
      → advance_by 1 (called w device routing_enabled r (record s { engine = e }))
        ≡ outcome (autostarted w proxy (is_ok r.0, r.1) s)
  unfolding advance_by advance called autostarted
  from_enabled (err x, e') e s = refl
  from_enabled (ok _, e') e s = from_configured (ensure_bypass_route w.sys w.net proxy s.net) e' s

  from_started :
      (r : Result EngineError (Unit {0}) × EngineState P D S) (e : EngineState P D S)
      (s : Service P D S)
      → advance_by 2 (called w device engine_started r (record s { engine = e }))
        ≡ outcome (autostarted w proxy (enabled w r) s)
  unfolding advance_by advance called enabled autostarted
  from_started (err x, e') e s = refl
  from_started (ok _, e') e s = from_enabled (enable_pid_routing w.parts e') e' s

  prepare_engine-idle :
      (s : Service P D S)
      → s.running ≡ false
      → prepare_engine w false device proxy s ≡ autostart w device proxy s
  unfolding prepare_engine
  prepare_engine-idle s off = ground arith

  from_read :
      (flag : Bool) (s : Service P D S)
      → s.running ≡ flag
      → advance_by 4 (flag_read flag, s) ≡ outcome (prepare_engine w false device proxy s)
  unfolding advance_by advance ended bypass prepare_engine autostart start_engine
  from_read true s on = rw on refl
  from_read false s off =
      from_started (start w.parts (insert_key w.parts (engine_key w device proxy) s.engine))
        (insert_key w.parts (engine_key w device proxy) s.engine) s
      ∙ sym (ap outcome (prepare_engine-idle s off))

  -- The five steps of a request are what the handler does with the engine and the network, for an ordinary
  -- application, when no step of another request comes between them.
  advance-prepare_engine :
      (s : Service P D S)
      → advance_by 5 (begun, s) ≡ outcome (prepare_engine w false device proxy s)
  unfolding advance_by advance
  advance-prepare_engine s = from_read s.running s refl
