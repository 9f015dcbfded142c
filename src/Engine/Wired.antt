-- ===== src/Engine/Wired.antt =====
-- The tunnel, and the PID router that `SetPIDProxy` changes.
use mathlib.Core.Path.{subst}
use proxy_for_windows_app.Base.{
  ℕ, suc, ◌≡◌, refl, sym, ◌∙◌, ◌⊎◌, inl, inr, true, Option, none, some, [], Result, ok, err, arith,
  is_some, ℕ_discrete, Option-cases, Result-cases, zero,
}
use proxy_for_windows_app.Base.Text.{Text}
use proxy_for_windows_app.Base.Dict.{lookup, insert, lookup-insert}
use proxy_for_windows_app.Router.{
  RouterError, OwnerInfo, PidRouter, pick_pid, climb, set_rule, new_pid_router,
}
use proxy_for_windows_app.Engine.{
  Key, EngineError, by_pid, EngineState, Parts, start, stop, enable_pid_routing, set_pid_proxy,
  set_at, tunnel_pick, insert_key,
}

module _ {P D S : Type 0} where
  abbrev pub WiredAt : Option ℕ → EngineState P D S → Type 0
  WiredAt none e = ⊥
  WiredAt (some pointer) e =
      (e.tunnel ≡ by_pid pointer) × (is_some (lookup ℕ_discrete pointer e.routers) ≡ true)

  -- PID routing is on, and the tunnel dials through the very router that `_pidRouter` points to.
  abbrev pub IsWired : EngineState P D S → Type 0
  IsWired e = WiredAt e.pid_router e

abbrev no_rules : {P : Type 0} → P → PidRouter P
no_rules direct = record { direct = direct; targets = []; labels = [] }

module _ {P D S : Type 0} (parts : Parts P D S) where
  -- `start` leaves the PID router, and the stop resets it.
  pub start-pid_router : (e : EngineState P D S) → (start parts e).1.pid_router ≡ e.pid_router
  unfolding start
  start-pid_router e = ground arith

  pub stop-pid_router : (e : EngineState P D S) → (stop parts e).pid_router ≡ none
  unfolding stop
  stop-pid_router e = refl

  pub insert_key-pid_router :
      (k : Key) (e : EngineState P D S) → (insert_key parts k e).pid_router ≡ e.pid_router
  unfolding insert_key
  insert_key-pid_router k e = refl

  -- If `EnablePIDRouting` fails, nothing has changed.
  pub enable_pid_routing-err :
      (e : EngineState P D S) {x : EngineError}
      → (enable_pid_routing parts e).0 ≡ err x
      → (enable_pid_routing parts e).1 ≡ e
  unfolding enable_pid_routing
  enable_pid_routing-err e h = ground arith

  climb-no_rules :
      (parent_pid : ℕ → ℕ → Result RouterError ℕ) (rounds depth pid : ℕ)
      → climb {P = P} parent_pid [] rounds depth pid ≡ none
  unfolding climb lookup
  climb-no_rules parent_pid zero depth pid = refl
  climb-no_rules parent_pid (suc rounds) depth pid = elim (Result-cases (parent_pid depth pid)) [
    | inl (p, e) ↦ ground (arith, climb-no_rules parent_pid rounds (suc depth) p)
    | inr (x, e) ↦ ground arith
  ]

  pick_pid-no_rules :
      (parent_pid : ℕ → ℕ → Result RouterError ℕ) (direct : P)
      (found : Result RouterError OwnerInfo)
      → pick_pid parent_pid (no_rules direct) found ≡ direct
  unfolding pick_pid lookup
  pick_pid-no_rules parent_pid direct (err x) = refl
  pick_pid-no_rules parent_pid direct (ok owner) =
      ground (arith, climb-no_rules parent_pid 12 0 owner.pid)

  with_router : P → EngineState P D S → EngineState P D S
  with_router direct e = record e {
    pid_router = some e.next_router;
    tunnel = by_pid e.next_router;
    routers = insert ℕ_discrete e.next_router (no_rules direct) e.routers;
    next_router = suc e.next_router;
  }

  enable_pid_routing-ok :
      (e : EngineState P D S)
      → e.pid_router ≡ none
      → (enable_pid_routing parts e).0 ≡ ok tt
      → (direct : P) × (parts.direct ≡ some direct)
        × ((enable_pid_routing parts e).1 ≡ with_router direct e)
  unfolding enable_pid_routing new_pid_router with_router
  enable_pid_routing-ok e off done = elim (Option-cases parts.direct) [
    | inl no_direct ↦ absurd (ground arith)
    | inr (direct, has_direct) ↦ elim (Option-cases parts.resolver_error) [
      | inr (x, broken) ↦ absurd (ground arith)
      | inl working ↦ (direct, has_direct, ground arith)
    ]
  ]

  with_router-IsWired :
      (parent_pid : ℕ → ℕ → Result RouterError ℕ) (e : EngineState P D S) (direct : P)
      (found : Result RouterError OwnerInfo)
      → IsWired (with_router direct e)
        × (tunnel_pick parts parent_pid (with_router direct e) found ≡ some direct)
  unfolding tunnel_pick with_router
  with_router-IsWired parent_pid e direct found =
      let new = lookup-insert ℕ_discrete e.next_router e.next_router (no_rules direct) e.routers in
      let picked = pick_pid-no_rules parent_pid direct found in ((refl, ground arith), ground arith)

  -- Where PID routing was off, a call of `EnablePIDRouting` that succeeds wires the tunnel to a new PID
  -- router, which sends every connection direct, whoever owns it.
  pub enable_pid_routing-IsWired :
      (parent_pid : ℕ → ℕ → Result RouterError ℕ) (e : EngineState P D S)
      (found : Result RouterError OwnerInfo)
      → e.pid_router ≡ none
      → (enable_pid_routing parts e).0 ≡ ok tt
      → IsWired (enable_pid_routing parts e).1
        × (tunnel_pick parts parent_pid (enable_pid_routing parts e).1 found ≡ parts.direct)
  enable_pid_routing-IsWired parent_pid e found off done =
      let (direct, has_direct, now) = enable_pid_routing-ok e off done in
      let (wired, routed) = with_router-IsWired parent_pid e direct found in
      rw now (wired, routed ∙ sym has_direct)

  pick_pid-set_rule :
      (parent_pid : ℕ → ℕ → Result RouterError ℕ) (r : PidRouter P) (pid : ℕ) (x : P) (label : Text)
      (owner : OwnerInfo)
      → owner.pid ≡ pid
      → pick_pid parent_pid (set_rule r pid x label) (ok owner) ≡ x
  unfolding pick_pid set_rule
  pick_pid-set_rule parent_pid r pid x label owner owned =
      ground (arith, lookup-insert ℕ_discrete owner.pid pid x r.targets)

  -- `_pidRouter.Set` through a pointer that stands.
  set_at-routes :
      (parent_pid : ℕ → ℕ → Result RouterError ℕ) (e : EngineState P D S) (pointer pid : ℕ)
      (label : Text) (x : P) (owner : OwnerInfo)
      → WiredAt (some pointer) e
      → owner.pid ≡ pid
      → WiredAt (some pointer) (set_at parts pointer pid x label e)
        × (tunnel_pick parts parent_pid (set_at parts pointer pid x label e) (ok owner) ≡ some x)
  unfolding set_at tunnel_pick
  set_at-routes parent_pid e pointer pid label x owner (dials, stands) owned =
      elim (Option-cases (lookup ℕ_discrete pointer e.routers)) [
        | inl missing ↦ absurd (ground arith)
        | inr (r, here) ↦
            let set = lookup-insert ℕ_discrete pointer pointer (set_rule r pid x label) e.routers in
            let picked = pick_pid-set_rule parent_pid r pid x label owner owned in
            ((ground arith, ground arith), ground arith)
      ]

  set_pid_proxy-on :
      (e : EngineState P D S) (pointer pid : ℕ) (url label : Text) (x : P)
      → e.pid_router ≡ some pointer
      → parts.parse_proxy url ≡ some x
      → (set_pid_proxy parts pid url label e ≡ (ok tt, set_at parts pointer pid x label e))
        × ((set_at parts pointer pid x label e).pid_router ≡ some pointer)
  unfolding set_pid_proxy set_at
  set_pid_proxy-on e pointer pid url label x on parsed = (ground arith, ground arith)

  set_at-WiredAt :
      (e : EngineState P D S) (pointer pid : ℕ) (label : Text) (x : P)
      → WiredAt (some pointer) e
      → WiredAt (some pointer) (set_at parts pointer pid x label e)
  unfolding set_at
  set_at-WiredAt e pointer pid label x (dials, stands) =
      elim (Option-cases (lookup ℕ_discrete pointer e.routers)) [
        | inl missing ↦ absurd (ground arith)
        | inr (r, here) ↦
            let set = lookup-insert ℕ_discrete pointer pointer (set_rule r pid x label) e.routers in
            (ground arith, ground arith)
      ]

  -- `SetPIDProxy` never changes `_pidRouter`, and keeps a wired engine wired.
  pub set_pid_proxy-pid_router :
      (e : EngineState P D S) (pid : ℕ) (url label : Text)
      → (set_pid_proxy parts pid url label e).1.pid_router ≡ e.pid_router
  unfolding set_pid_proxy set_at
  set_pid_proxy-pid_router e pid url label = elim (Option-cases e.pid_router) [
    | inl off ↦ ground arith
    | inr (pointer, on) ↦ elim (Option-cases (parts.parse_proxy url)) [
      | inl bad ↦ ground arith
      | inr (x, parsed) ↦ ground arith
    ]
  ]

  set_pid_proxy-cases :
      (e : EngineState P D S) (pid : ℕ) (url label : Text)
      → ((set_pid_proxy parts pid url label e).1 ≡ e)
        ⊎ ((pointer : ℕ) × (x : P) × (e.pid_router ≡ some pointer)
            × (set_pid_proxy parts pid url label e ≡ (ok tt, set_at parts pointer pid x label e))
            × (parts.parse_proxy url ≡ some x))
  unfolding set_pid_proxy
  set_pid_proxy-cases e pid url label = elim (Option-cases e.pid_router) [
    | inl off ↦ inl (ground arith)
    | inr (pointer, on) ↦ elim (Option-cases (parts.parse_proxy url)) [
      | inl bad ↦ inl (ground arith)
      | inr (x, parsed) ↦ inr (pointer, x, on, ground arith, parsed)
    ]
  ]

  pub set_pid_proxy-IsWired :
      (e : EngineState P D S) (pid : ℕ) (url label : Text)
      → IsWired e
      → IsWired (set_pid_proxy parts pid url label e).1
  set_pid_proxy-IsWired e pid url label wired = elim (set_pid_proxy-cases e pid url label) [
    | inl unchanged ↦ rw unchanged wired
    | inr (pointer, x, on, done, parsed) ↦
        let (_, kept) = set_pid_proxy-on e pointer pid url label x on parsed in
        let still = set_at-WiredAt e pointer pid label x (subst (λ o. WiredAt o e) on wired) in
        rw done (subst (λ o. WiredAt o (set_at parts pointer pid x label e)) (sym kept) still)
  ]

  -- If `SetPIDProxy` succeeds, PID routing was on and the proxy URL can be parsed.
  pub set_pid_proxy-ok :
      (e : EngineState P D S) (pid : ℕ) (url label : Text)
      → (set_pid_proxy parts pid url label e).0 ≡ ok tt
      → (x : P) × (parts.parse_proxy url ≡ some x)
  unfolding set_pid_proxy
  set_pid_proxy-ok e pid url label done = elim (Option-cases (parts.parse_proxy url)) [
    | inl bad ↦ absurd (ground arith)
    | inr (x, parsed) ↦ (x, parsed)
  ]

  -- In a wired engine `SetPIDProxy` for a proxy URL that can be parsed succeeds, keeps the engine wired,
  -- and the tunnel then dials through that proxy each connection whose owner the resolver finds to be that
  -- process.
  pub set_pid_proxy-routes :
      (parent_pid : ℕ → ℕ → Result RouterError ℕ) (e : EngineState P D S) (pid : ℕ)
      (url label : Text) (x : P) (owner : OwnerInfo)
      → IsWired e
      → parts.parse_proxy url ≡ some x
      → owner.pid ≡ pid
      → let (r, e') = set_pid_proxy parts pid url label e in
        (r ≡ ok tt) × IsWired e' × (tunnel_pick parts parent_pid e' (ok owner) ≡ some x)
  set_pid_proxy-routes parent_pid e pid url label x owner wired parsed owned =
      elim (Option-cases e.pid_router) [
        | inl off ↦ absurd (subst (λ o. WiredAt o e) off wired)
        | inr (pointer, on) ↦
            let (still, routed) =
              set_at-routes parent_pid e pointer pid label x owner
                (subst (λ o. WiredAt o e) on wired) owned in
            let (done, kept) = set_pid_proxy-on e pointer pid url label x on parsed in
            rw done (
              refl,
              subst (λ o. WiredAt o (set_at parts pointer pid x label e)) (sym kept) still,
              routed,
            )
      ]
