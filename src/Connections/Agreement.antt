-- ===== src/Connections/Agreement.antt =====
-- What the GUI and the console show of the same tables.
use proxy_for_windows_app.Base.{ℕ, ◌≤◌, ◌≡◌, ◌≢◌, Bool, true, not, ◌&&◌, ◌||◌, some, List}
use proxy_for_windows_app.Base.Text.{Text, codes, same}
use proxy_for_windows_app.Connections.{Processes, Connection}
use proxy_for_windows_app.Connections.Console.{should_skip_row}

-- A process that both programs can name.
unfoldable pub IsPlain : Processes → ℕ → Type 0
IsPlain p pid =
    (pid ≢ 0) × (pid ≢ 4) × (p.opens pid ≡ true) × ((path : Text) × (p.image_path pid ≡ some path))

-- A state that both programs can name.
unfoldable pub IsKnown : ℕ → Type 0
IsKnown s = (1 ≤ s) × (s ≤ 12)

module _ (to_lower : Text → Text) (ntohs : ℕ → ℕ) (p : Processes) (filter_pid : ℕ)
    (filter_name : Text) where
  -- What passes the console's filters, of its two protocols.
  unfoldable pub passes : Connection → Bool
  passes c =
      (same c.proto (codes "TCP") || same c.proto (codes "UDP"))
      && not (should_skip_row to_lower ntohs p c.pid filter_pid filter_name)
