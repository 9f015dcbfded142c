-- ===== src/Network/Routes.antt =====
-- The routes that a log of commands has left in the system.
use proxy_for_windows_app.Base.{Bool, true, false, [], ◌∷◌, if◌then◌else◌}
use proxy_for_windows_app.Base.Text.{Text, same}
use proxy_for_windows_app.Network.{
  Command, add_default, delete_default, add_bypass, delete_bypass, Trace,
}

-- The default route by mytun, after one command and before it.
abbrev default_after : Command → Bool → Bool → Bool
default_after add_default true before = true
default_after delete_default true before = false
default_after _ _ before = before

-- Whether the default route by mytun stands.
unfoldable pub default_up : Trace → Bool
default_up [] = false
default_up ((c, done) ∷ t) = default_after c done (default_up t)

abbrev route_after : Text → Command → Bool → Bool → Bool
route_after h (add_bypass host gateway) true before = if same h host then true else before
route_after h (delete_bypass host) true before = if same h host then false else before
route_after h _ _ before = before

-- Whether the host route to `h`, past the tunnel, stands.
unfoldable pub route_up : Text → Trace → Bool
route_up h [] = false
route_up h ((c, done) ∷ t) = route_after h c done (route_up h t)
