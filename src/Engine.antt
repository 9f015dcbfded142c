-- ===== src/Engine.antt =====
-- The embedded engine, tun2socks/engine/engine.go: its package variables, `start`, `stop`, and the
-- routing by process ID. What the rest of tun2socks does for it is the record `Parts`.
pub mod Wired
mod Tests
use proxy_for_windows_app.Base.{
  ℕ, suc, Bool, true, false, Option, none, some, List, [], ◌∷◌, Result, ok, err, if◌then◌else◌,
  is_empty, ℕ_discrete,
}
use proxy_for_windows_app.Base.Text.{Text}
use proxy_for_windows_app.Base.Dict.{Dict, lookup, insert}
use proxy_for_windows_app.Router.{
  RouterError, OwnerInfo, PidRouter, ProcessRouter, new_pid_router, new_process_router, set_rule,
  pick_pid, pick_process,
}

-- The fields of `engine.Key` that the program sets, and the list of process names.
pub record Key : Type 0 where
  pub device : Text
  pub proxy : Text
  pub log_level : Text
  pub proxy_processes : List Text

pub data EngineError : Type 0 where
  empty_key empty_proxy empty_device router_disabled upstream : EngineError
  router_failed : RouterError → EngineError

-- The proxy that the tunnel dials through: none yet, a plain one, a router by process name, or the
-- PID router at a pointer.
pub data TunnelProxy (P : Type 0) : Type 0 where
  unset : TunnelProxy P
  plain : P → TunnelProxy P
  by_name : ProcessRouter P → TunnelProxy P
  by_pid : ℕ → TunnelProxy P

-- The package variables, the tunnel's proxy, the PID routers behind their pointers, and the devices
-- and stacks that were closed, the newest first.
pub record EngineState (P D S : Type 0) : Type 0 where
  pub default_key : Option Key
  pub default_proxy : Option P
  pub pid_router : Option ℕ
  pub default_device : Option D
  pub default_stack : Option S
  pub tunnel : TunnelProxy P
  pub routers : Dict ℕ (PidRouter P)
  pub next_router : ℕ
  pub closed_devices : List D
  pub closed_stacks : List S

-- What the engine calls; a failing call gives `none` or `false`.
pub record Parts (P D S : Type 0) : Type 0 where
  pub general : Key → Bool
  pub rest_api : Key → Bool
  pub parse_multicast_groups : Key → Bool
  pub parse_proxy : Text → Option P
  pub direct : Option P
  pub parse_device : Text → Option D
  pub parse_options : Key → Bool
  pub create_stack : D → Option S
  -- the error of `newProcessResolver`, if it has one
  pub resolver_error : Option RouterError
  pub to_lower : Text → Text

close_all : {A : Type 0} → Option A → List A → List A
close_all none closed = closed
close_all (some a) closed = a ∷ closed

abbrev pub pick_at :
    {P : Type 0}
    → (ℕ → ℕ → Result RouterError ℕ)
    → Option (PidRouter P)
    → Result RouterError OwnerInfo
    → Option P
pick_at parent_pid none found = none
pick_at parent_pid (some r) found = some (pick_pid parent_pid r found)

module _ {P D S : Type 0} (parts : Parts P D S) where
  abbrev Outcome : Type 0
  Outcome = Result EngineError (Unit {0}) × EngineState P D S

  -- `netstack` from `parseDevice` on.
  unfoldable pub build_stack : Key → EngineState P D S → Outcome
  build_stack k e = elim (parts.parse_device k.device) [
    | none ↦ (err upstream, record e { default_device = none })
    | some device ↦
        let e' = record e { default_device = some device } in
        if parts.parse_options k
        then elim (parts.create_stack device) [
          | none ↦ (err upstream, record e' { default_stack = none })
          | some stack ↦ (ok tt, record e' { default_stack = some stack })
        ]
        else (err upstream, e')
  ]

  -- `selectedProxy` of `netstack`.
  unfoldable pub select_proxy : Key → P → Result EngineError (TunnelProxy P)
  select_proxy k proxied = elim k.proxy_processes [
    | [] ↦ ok (plain proxied)
    | name ∷ names ↦ elim parts.direct [
      | none ↦ err upstream
      | some direct ↦
          elim (new_process_router parts.to_lower parts.resolver_error proxied direct
            k.proxy_processes) [ err x ↦ err (router_failed x) | ok r ↦ ok (by_name r) ]
    ]
  ]

  -- `netstack` from `parseProxy` on.
  unfoldable pub set_proxy : Key → EngineState P D S → Outcome
  unfolding build_stack
  set_proxy k e = elim (parts.parse_proxy k.proxy) [
    | none ↦ (err upstream, record e { default_proxy = none })
    | some proxied ↦
        let e' = record e { default_proxy = some proxied } in
        elim (select_proxy k proxied) [
          | err x ↦ (err x, e')
          | ok selected ↦ build_stack k (record e' { tunnel = selected })
        ]
  ]

  -- `netstack`; the commands before and after it change nothing here.
  unfoldable pub netstack : Key → EngineState P D S → Outcome
  unfolding set_proxy
  netstack k e =
      if is_empty k.proxy
      then (err empty_proxy, e)
      else if is_empty k.device
      then (err empty_device, e)
      else if parts.parse_multicast_groups k
      then set_proxy k e
      else (err upstream, e)

  -- `Insert`
  unfoldable pub insert_key : Key → EngineState P D S → EngineState P D S
  insert_key k e = record e { default_key = some k }

  -- `StartWithError`
  unfoldable pub start : EngineState P D S → Outcome
  unfolding netstack
  start e = elim e.default_key [
    | none ↦ (err empty_key, e)
    | some k ↦
        if parts.general k
        then if parts.rest_api k then netstack k e else (err upstream, e)
        else (err upstream, e)
  ]

  -- `StopWithError`, which never fails.
  unfoldable pub stop : EngineState P D S → EngineState P D S
  unfolding close_all
  stop e = record e {
    pid_router = none;
    closed_devices = close_all e.default_device e.closed_devices;
    closed_stacks = close_all e.default_stack e.closed_stacks;
  }

  -- `EnablePIDRouting`
  unfoldable pub enable_pid_routing : EngineState P D S → Outcome
  enable_pid_routing e = elim e.pid_router [
    | some _ ↦ (ok tt, e)
    | none ↦ elim parts.direct [
      | none ↦ (err upstream, e)
      | some direct ↦ elim (new_pid_router parts.resolver_error direct) [
        | err x ↦ (err (router_failed x), e)
        | ok r ↦ (
          ok tt,
          record e {
            pid_router = some e.next_router;
            tunnel = by_pid e.next_router;
            routers = insert ℕ_discrete e.next_router r e.routers;
            next_router = suc e.next_router;
          },
        )
      ]
    ]
  ]

  -- `_pidRouter.Set`, through the pointer.
  set_at : ℕ → ℕ → P → Text → EngineState P D S → EngineState P D S
  set_at pointer pid proxied label e = elim (lookup ℕ_discrete pointer e.routers) [
    | none ↦ e
    | some r ↦ record e {
      routers = insert ℕ_discrete pointer (set_rule r pid proxied label) e.routers;
    }
  ]

  -- `SetPIDProxy`
  unfoldable pub set_pid_proxy : ℕ → Text → Text → EngineState P D S → Outcome
  unfolding set_at
  set_pid_proxy pid proxy_url label e = elim e.pid_router [
    | none ↦ (err router_disabled, e)
    | some pointer ↦ elim (parts.parse_proxy proxy_url) [
      | none ↦ (err upstream, e)
      | some proxied ↦ (ok tt, set_at pointer pid proxied label e)
    ]
  ]

  -- The proxy by which the tunnel dials a connection, given what the resolver says of its owner.
  unfoldable pub tunnel_pick :
      (ℕ → ℕ → Result RouterError ℕ) → EngineState P D S → Result RouterError OwnerInfo → Option P
  tunnel_pick parent_pid e found = elim e.tunnel [
    | unset ↦ none
    | plain proxied ↦ some proxied
    | by_name r ↦ some (pick_process parts.to_lower r found)
    | by_pid pointer ↦ pick_at parent_pid (lookup ℕ_discrete pointer e.routers) found
  ]
