-- ===== src/Network.antt =====
-- The routes of the tunnel: `configureTunNetwork`, `ensureProxyBypassRoute` and `cleanupTunNetwork`
-- in netmonitor-gui/main.go. The system answers each `netsh` and `route` command by success or an
-- error, which may depend on all commands before it; the log of the commands is part of the state.
pub mod Routes
pub mod Bypass
pub mod Cleanup
mod Tests
use proxy_for_windows_app.Base.{
  ℕ, ◌≡◌, Bool, true, false, Option, none, some, List, [], ◌∷◌, Result, ok, err, if◌then◌else◌,
}
use proxy_for_windows_app.Base.Text.{Text, Text-discrete}
use proxy_for_windows_app.Base.Dict.{Dict, lookup, insert}
use proxy_for_windows_app.Address.{NetFunctions, AddressError, proxy_host}

-- The commands, by what changes in them: `netsh interface ipv4 set address` and `set dnsservers` of
-- mytun, `route ADD host MASK 255.255.255.255 gateway METRIC 1`, `route DELETE host`, and
-- `netsh interface ipv4 add route` and `delete route` of 0.0.0.0/0 by mytun.
pub data Command : Type 0 where
  set_address set_dns add_default delete_default : Command
  add_bypass : Text → Text → Command
  delete_bypass : Text → Command

-- The newest command first, with its success.
abbrev pub Trace : Type 0
Trace = List (Command × Bool)

-- `tunNetworkState`
pub record TunState : Type 0 where
  pub gateway : Text
  pub proxy_hosts : Dict Text (Unit {0})

-- The variable `networkState`, and the log.
pub record Net : Type 0 where
  pub network_state : Option TunState
  pub trace : Trace

pub data NetError : Type 0 where
  host_unresolved : AddressError → NetError
  gateway_unresolved : NetError
  command_failed : Command → NetError

-- What the system answers: to a command, and to `defaultGateway`.
pub record System : Type 0 where
  pub run : Trace → Command → Bool
  pub default_gateway : Trace → Option Text

abbrev pub M : Type 0 → Type 0
M A = Net → Result NetError A × Net

abbrev after : {A B : Type 0} → Result NetError A → (A → M B) → M B
after (ok a) f s = f a s
after (err e) f s = (err e, s)

infixl 5 ◌>>=◌ ◌>>◌
abbrev ◌>>=◌ : {A B : Type 0} → M A → (A → M B) → M B
◌>>=◌ m f s = let (r, t) = m s in after r f t

abbrev ◌>>◌ : {B : Type 0} → M (Unit {0}) → M B → M B
m >> k = m >>= λ _. k

abbrev lift : {A : Type 0} → Result NetError A → M A
lift r s = (r, s)

abbrev put_state : Option TunState → M (Unit {0})
put_state st s = (ok tt, record s { network_state = st })

abbrev undone : M (Unit {0}) → Result NetError (Unit {0}) → M (Unit {0})
undone undo (ok a) s = (ok a, s)
undone undo (err e) s = (err e, (undo s).1)

-- `if err := m; err != nil { undo; return err }`
abbrev undo_on_error : M (Unit {0}) → M (Unit {0}) → M (Unit {0})
undo_on_error m undo s = let (r, t) = m s in undone undo r t

abbrev host_of : NetFunctions → Text → Result NetError Text
host_of net raw = elim (proxy_host net raw) [ ok host ↦ ok host | err e ↦ err (host_unresolved e) ]

module _ (sys : System) (net : NetFunctions) where
  -- `runNetsh` and `runRoute`
  unfoldable pub run_command : Command → M (Unit {0})
  run_command c s =
      let done = sys.run s.trace c in
      ((if done then ok tt else err (command_failed c)), record s { trace = (c, done) ∷ s.trace })

  gateway_of : M Text
  gateway_of s = elim (sys.default_gateway s.trace) [
    | none ↦ (err gateway_unresolved, s)
    | some gateway ↦ (ok gateway, s)
  ]

  -- `configureTunNetwork` behind its first test, for the host of the proxy.
  unfoldable pub set_up : Text → M (Unit {0})
  unfolding run_command gateway_of insert
  set_up host = do
    gateway ← gateway_of
    run_command set_address
    run_command set_dns
    run_command (add_bypass host gateway)
    undo_on_error (run_command add_default) (run_command (delete_bypass host))
    put_state (some (record { gateway = gateway; proxy_hosts = insert Text-discrete host tt [] }))

  -- `ensureProxyBypassRoute` behind its first test, for the host of the proxy.
  unfoldable pub add_host : TunState → Text → M (Unit {0})
  unfolding run_command
  add_host st host = elim (lookup Text-discrete host st.proxy_hosts) [
    | some _ ↦ lift (ok tt)
    | none ↦ do
      run_command (add_bypass host st.gateway)
      put_state (some (record st { proxy_hosts = insert Text-discrete host tt st.proxy_hosts }))
  ]

  -- Each of `configureTunNetwork` and `ensureProxyBypassRoute` calls the other where `networkState`
  -- is, or is not, nil: this is the branch that runs in the end.
  route_for : Option TunState → Text → M (Unit {0})
  route_for none host = set_up host
  route_for (some st) host = add_host st host

  -- `ensureProxyBypassRoute`, and `configureTunNetwork`.
  unfoldable pub ensure_bypass_route : Text → M (Unit {0})
  unfolding route_for
  ensure_bypass_route raw s = (do host ← lift (host_of net raw); route_for s.network_state host) s

  -- The loop of `cleanupTunNetwork`; the errors are dropped.
  unfoldable pub delete_hosts : Dict Text (Unit {0}) → Net → Net
  unfolding run_command
  delete_hosts [] s = s
  delete_hosts ((host, _) ∷ hosts) s = delete_hosts hosts (run_command (delete_bypass host) s).1

  cleanup_state : Option TunState → Net → Net
  unfolding delete_hosts run_command
  cleanup_state none s = s
  cleanup_state (some st) s =
      record (delete_hosts st.proxy_hosts (run_command delete_default s).1) { network_state = none }

  -- `cleanupTunNetwork`
  unfoldable pub cleanup : Net → Net
  unfolding cleanup_state
  cleanup s = cleanup_state s.network_state s
