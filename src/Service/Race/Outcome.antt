-- ===== src/Service/Race/Outcome.antt =====
-- How two launches end if one starts the engine when the other has enabled PID routing.
use mathlib.Core.Path.{subst}
use proxy_for_windows_app.Base.{
  ◌≡◌, refl, inl, inr, true, false, some, Result, ok, err, arith, is_some, Option-cases,
}
use proxy_for_windows_app.Base.Text.{Text}
use proxy_for_windows_app.Network.{Net, NetError, ensure_bypass_route}
use proxy_for_windows_app.Engine.{EngineError, EngineState, plain, insert_key, start}
use proxy_for_windows_app.Engine.Wired.{IsWired, WiredAt}
use proxy_for_windows_app.Service.{Service, World, engine_key, configured}
use proxy_for_windows_app.Service.Race.{
  Phase, begun, flag_read, key_inserted, engine_started, routing_enabled, past, Two, called, ended,
  advance, first_moves, second_moves, Run, start_here, more,
}
use proxy_for_windows_app.Service.Race.Again.{On, Dials, IsUnrouted, start-Dials, enable-On}

module _ {P D S : Type 0} (w : World P D S) (device proxy other : Text) where
  -- What holds while the second request, which has read that no engine runs, goes on with PID routing on.
  Late : Phase → Service P D S → Type 0
  Late begun s = ⊥
  Late (flag_read true) s = ⊥
  Late (flag_read false) s = On w device other s.engine
  Late key_inserted s =
      On w device other s.engine × (s.engine.default_key ≡ some (engine_key w device other))
  Late engine_started s = On w device other s.engine × Dials w device other s.engine
  Late routing_enabled s = On w device other s.engine × Dials w device other s.engine
  Late (past true) s =
      On w device other s.engine × Dials w device other s.engine × (s.running ≡ true)
  Late (past false) s = Unit

  -- The first request has enabled PID routing, or has ended.
  Unsettled : Phase → Phase → Service P D S → Type 0
  Unsettled begun q s = ⊥
  Unsettled (flag_read flag) q s = ⊥
  Unsettled key_inserted q s = ⊥
  Unsettled engine_started q s = ⊥
  Unsettled routing_enabled q s = Late q s
  Unsettled (past true) q s = Late q s
  Unsettled (past false) q s = Unit

  -- The first request configures the network.
  Late-running :
      (q : Phase) (n : Net) (s : Service P D S)
      → Late q s
      → Late q (record s { engine = s.engine; net = n; running = true })
  unfolding Late
  Late-running begun n s h = h
  Late-running (flag_read true) n s h = h
  Late-running (flag_read false) n s h = h
  Late-running key_inserted n s h = h
  Late-running engine_started n s h = h
  Late-running routing_enabled n s h = h
  Late-running (past true) n s (on, dials, _) = (on, dials, refl)
  Late-running (past false) n s h = h

  first-configured :
      (r : Result NetError (Unit {0}) × Net) (q : Phase) (s : Service P D S)
      → Late q s
      → let o = ended w device (configured w r s.engine s) in Unsettled o.0 q o.1
  unfolding Unsettled ended configured
  first-configured (err _, n) q s h = tt
  first-configured (ok _, n) q s h = Late-running q n s h

  first-Unsettled :
      (p q : Phase) (s : Service P D S)
      → Unsettled p q s
      → let o = advance w device proxy p s in Unsettled o.0 q o.1
  unfolding advance Unsettled
  first-Unsettled begun q s h = absurd h
  first-Unsettled (flag_read flag) q s h = absurd h
  first-Unsettled key_inserted q s h = absurd h
  first-Unsettled engine_started q s h = absurd h
  first-Unsettled routing_enabled q s h =
      first-configured (ensure_bypass_route w.sys w.net proxy s.net) q s h
  first-Unsettled (past true) q s h = h
  first-Unsettled (past false) q s h = h

  second-started :
      (r : Result EngineError (Unit {0}) × EngineState P D S) (s : Service P D S)
      → (r.0 ≡ ok tt → On w device other r.1 × Dials w device other r.1)
      → let o = called w device engine_started r s in Late o.0 o.1
  unfolding Late called
  second-started (err _, e) s h = tt
  second-started (ok _, e) s h = h refl

  second-configured :
      (r : Result NetError (Unit {0}) × Net) (s : Service P D S)
      → On w device other s.engine × Dials w device other s.engine
      → let o = ended w device (configured w r s.engine s) in Late o.0 o.1
  unfolding Late ended configured
  second-configured (err _, n) s h = tt
  second-configured (ok _, n) s (on, dials) = (on, dials, refl)

  second-Late :
      (q : Phase) (s : Service P D S)
      → Late q s
      → let o = advance w device other q s in Late o.0 o.1
  unfolding advance Late insert_key called
  second-Late begun s h = absurd h
  second-Late (flag_read true) s h = absurd h
  second-Late (flag_read false) s on = (on, refl)
  second-Late key_inserted s (on, keyed) =
      second-started (start w.parts s.engine) s (start-Dials w device other s.engine on keyed)
  second-Late engine_started s (on, dials) = rw (enable-On w device other s.engine on) (on, dials)
  second-Late routing_enabled s h =
      second-configured (ensure_bypass_route w.sys w.net other s.net) s h
  second-Late (past true) s h = h
  second-Late (past false) s h = h

  second-Unsettled :
      (p q : Phase) (s : Service P D S)
      → Unsettled p q s
      → let o = advance w device other q s in Unsettled p o.0 o.1
  unfolding Unsettled
  second-Unsettled begun q s h = absurd h
  second-Unsettled (flag_read flag) q s h = absurd h
  second-Unsettled key_inserted q s h = absurd h
  second-Unsettled engine_started q s h = absurd h
  second-Unsettled routing_enabled q s h = second-Late q s h
  second-Unsettled (past true) q s h = second-Late q s h
  second-Unsettled (past false) q s h = tt

  Run-Unsettled :
      {t u : Two P D S}
      → Run w device proxy other t u
      → Unsettled t.first t.second t.service
      → Unsettled u.first u.second u.service
  Run-Unsettled start_here h = h
  Run-Unsettled (more run (first_moves s p q)) h = first-Unsettled p q s (Run-Unsettled run h)
  Run-Unsettled (more run (second_moves s p q)) h = second-Unsettled p q s (Run-Unsettled run h)

plain-unwired :
    {P D S : Type 0} (e : EngineState P D S) (x : P) → e.tunnel ≡ plain x → IsWired e → ⊥
plain-unwired e x dials wired = elim (Option-cases e.pid_router) [
  | inl off ↦ subst (λ o. WiredAt o e) off wired
  | inr (pointer, on) ↦ let (by_router, _) = subst (λ o. WiredAt o e) on wired in ground arith
]

-- If one launch of an ordinary application has read that the engine does not run, and has not called
-- Insert yet, when another has enabled PID routing and does not yet count the engine as running, and both
-- succeed, then, however their steps go on, the engine counts as running with PID routing on, but the
-- tunnel dials every connection of the system through the proxy of the one that was late, whoever owns it.
pub race-IsUnrouted :
    {P D S : Type 0} (w : World P D S) (device proxy other : Text) (s : Service P D S)
    (t : Two P D S)
    → is_some s.engine.pid_router ≡ true
    → Run w device proxy other
        (record { service = s; first = routing_enabled; second = flag_read false })
        t
    → t.first ≡ past true
    → t.second ≡ past true
    → IsUnrouted w device other t.service × (¬ IsWired t.service.engine)
unfolding Unsettled Late IsUnrouted
race-IsUnrouted w device proxy other s t on run first second =
    let settled = Run-Unsettled w device proxy other run on in
    let by_first = subst (λ p. Unsettled w device proxy other p t.second t.service) first settled in
    let (still_on, (x, parsed, dials), runs) =
      subst (λ q. Unsettled w device proxy other (past true) q t.service) second by_first in
    ((runs, still_on, (x, parsed, dials)), plain-unwired t.service.engine x dials)
