-- ===== src/Service/Race/Again.antt =====
-- What a start of the engine does that is made while PID routing is on.
use proxy_for_windows_app.Base.{
  ◌≡◌, refl, ap, ◌∙◌, inl, inr, true, some, [], ok, arith, is_some, Option-cases,
}
use proxy_for_windows_app.Base.Text.{Text}
use proxy_for_windows_app.Address.{normalized_proxy_or_raw}
use proxy_for_windows_app.Engine.{
  Key, EngineState, plain, start, netstack, set_proxy, select_proxy, build_stack,
  enable_pid_routing,
}
use proxy_for_windows_app.Engine.Wired.{start-pid_router}
use proxy_for_windows_app.Service.{Service, World, engine_key}

module _ {P D S : Type 0} (w : World P D S) (device proxy : Text) where
  -- PID routing counts as on.
  abbrev pub On : EngineState P D S → Type 0
  On e = is_some e.pid_router ≡ true

  -- The tunnel dials everything through the proxy.
  abbrev pub Dials : EngineState P D S → Type 0
  Dials e =
      (x : P) × (w.parts.parse_proxy (normalized_proxy_or_raw w.net.query_escape proxy) ≡ some x)
      × (e.tunnel ≡ plain x)

  -- The tunnel dials everything through the proxy, although the engine counts as running with PID
  -- routing on.
  unfoldable pub IsUnrouted : Service P D S → Type 0
  IsUnrouted s = (s.running ≡ true) × On s.engine × Dials s.engine

  start-plain :
      (k : Key) (e : EngineState P D S)
      → e.default_key ≡ some k
      → k.proxy_processes ≡ []
      → (start w.parts e).0 ≡ ok tt
      → (x : P) × (w.parts.parse_proxy k.proxy ≡ some x) × ((start w.parts e).1.tunnel ≡ plain x)
  unfolding start netstack set_proxy select_proxy build_stack
  start-plain k e keyed any_process done = elim (Option-cases (w.parts.parse_proxy k.proxy)) [
    | inl unparsed ↦ absurd (ground arith)
    | inr (x, parsed) ↦ (x, parsed, ground arith)
  ]

  -- A start with the key of the proxy makes the tunnel dial through that proxy, and PID routing still
  -- counts as on.
  pub start-Dials :
      (e : EngineState P D S)
      → On e
      → e.default_key ≡ some (engine_key w device proxy)
      → (start w.parts e).0 ≡ ok tt
      → On (start w.parts e).1 × Dials (start w.parts e).1
  unfolding engine_key
  start-Dials e on keyed done =
      (ap is_some (start-pid_router w.parts e) ∙ on, start-plain _ e keyed refl done)

  -- While PID routing counts as on, enabling it changes nothing.
  pub enable-On : (e : EngineState P D S) → On e → enable_pid_routing w.parts e ≡ (ok tt, e)
  unfolding enable_pid_routing
  enable-On e on = elim (Option-cases e.pid_router) [
    | inl off ↦ absurd (ground arith)
    | inr (pointer, on') ↦ rw on' refl
  ]
