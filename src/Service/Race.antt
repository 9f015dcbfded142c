-- ===== src/Service/Race.antt =====
-- Two requests to launch ordinary applications that run at the same time. Each reads
-- `proxyEngineRunning`, which `handleLaunchApplication` does without `proxyEngineMu`, and then starts the
-- engine by calls that hold the lock of the engine one by one: `Insert`, `StartWithError`,
-- `EnablePIDRouting`. Each call is a step, and so is `configureTunNetwork` with what follows it, which
-- holds no lock but writes nothing of the engine unless it fails.
pub mod Alone
pub mod Again
pub mod Outcome
use proxy_for_windows_app.Base.{Bool, true, false, Result, ok, err}
use proxy_for_windows_app.Base.Text.{Text}
use proxy_for_windows_app.Network.{ensure_bypass_route}
use proxy_for_windows_app.Engine.{EngineError, EngineState, insert_key, start, enable_pid_routing}
use proxy_for_windows_app.Service.{Service, World, engine_key, configured, bypass}

-- How far a request is: before the read; it has read the flag; its calls of the engine that have
-- succeeded; and whether it has prepared the engine, or failed.
pub data Phase : Type 0 where
  begun : Phase
  flag_read : Bool → Phase
  key_inserted : Phase
  engine_started : Phase
  routing_enabled : Phase
  past : Bool → Phase

pub record Two (P D S : Type 0) : Type 0 where
  pub service : Service P D S
  pub first : Phase
  pub second : Phase

module _ {P D S : Type 0} (w : World P D S) (device : Text) where
  -- A call of the engine: the next phase is `reached`, or the request has failed.
  pub called :
      Phase
      → Result EngineError (Unit {0}) × EngineState P D S
      → Service P D S
      → Phase × Service P D S
  called reached (err _, e) s = (past false, record s { engine = e })
  called reached (ok _, e) s = (reached, record s { engine = e })

  pub ended : Bool × Service P D S → Phase × Service P D S
  ended (fine, s) = (past fine, s)

  -- The next step of a request for `proxy`; a request that is past does nothing.
  unfoldable pub advance : Text → Phase → Service P D S → Phase × Service P D S
  unfolding called ended bypass configured engine_key
  advance proxy begun s = (flag_read s.running, s)
  advance proxy (flag_read true) s = ended (bypass w proxy s)
  advance proxy (flag_read false) s =
      (key_inserted, record s { engine = insert_key w.parts (engine_key w device proxy) s.engine })
  advance proxy key_inserted s = called engine_started (start w.parts s.engine) s
  advance proxy engine_started s = called routing_enabled (enable_pid_routing w.parts s.engine) s
  advance proxy routing_enabled s =
      ended (configured w (ensure_bypass_route w.sys w.net proxy s.net) s.engine s)
  advance proxy (past fine) s = (past fine, s)

-- The steps of two requests, with the proxies that they are for.
module _ {P D S : Type 0} (w : World P D S) (device proxy other : Text) where
  pub data Step : Two P D S → Two P D S → Type 0 where
    first_moves :
        (s : Service P D S) (p q : Phase)
        → Step
            (record { service = s; first = p; second = q })
            (record {
              service = (advance w device proxy p s).1;
              first = (advance w device proxy p s).0;
              second = q;
            })
    second_moves :
        (s : Service P D S) (p q : Phase)
        → Step
            (record { service = s; first = p; second = q })
            (record {
              service = (advance w device other q s).1;
              first = p;
              second = (advance w device other q s).0;
            })

  pub data Run : Two P D S → Two P D S → Type 0 where
    start_here : {t : Two P D S} → Run t t
    more : {t u v : Two P D S} → Run t u → Step u v → Run t v
