-- ===== src/Heartbeat.antt =====
-- The watch over the user interface in netmonitor-gui/main.go: the route `/ui-heartbeat`,
-- `beginBusyOperation` and `watchUIHeartbeat`. Times are milliseconds; a start with `lastUIHeartbeat`
-- unset has the time 0.
pub mod Exit
pub mod Liveness
mod Tests
use proxy_for_windows_app.Base.{
  ℕ, ◌+◌, ◌-◌, ◌≤◌, Bool, true, false, not, ◌&&◌, List, [], ◌∷◌, Option, none, some, ltb, ◌==◌,
  if◌then◌else◌,
}

-- `uiSeen`, `lastUIHeartbeat` and `busyOperations`.
pub record Heartbeat : Type 0 where
  pub ui_seen : Bool
  pub last_heartbeat : ℕ
  pub busy : ℕ

-- 12 seconds
abbrev pub patience : ℕ
patience = 12000

-- What happens at a moment: a request to `/ui-heartbeat`, the start and the end of a busy operation, and
-- a tick of the watch, with whether launched applications are tracked then.
pub data Moment : Type 0 where
  beat busy_start busy_end : Moment
  tick : Bool → Moment

-- `beginBusyOperation`
unfoldable pub begin_busy : Heartbeat → Heartbeat
begin_busy h = record h { busy = h.busy + 1 }

-- The function that `beginBusyOperation` returns; subtraction stops at 0, as the test there has it.
unfoldable pub end_busy : ℕ → Heartbeat → Heartbeat
end_busy now h = record h { busy = h.busy - 1; last_heartbeat = now }

-- The handler of `/ui-heartbeat`.
unfoldable pub receive_beat : ℕ → Heartbeat → Heartbeat
receive_beat now h = record h { last_heartbeat = now; ui_seen = true }

-- `time.Since(lastSeen) > 12*time.Second`, for a user interface that was seen.
unfoldable pub is_lost : ℕ → Heartbeat → Bool
is_lost now h = h.ui_seen && ltb (h.last_heartbeat + patience) now

-- A round of `watchUIHeartbeat`: the next state, or the exit.
unfoldable pub watch : ℕ → Bool → Heartbeat → Option Heartbeat
unfolding is_lost
watch now launched h =
    if ltb 0 h.busy
    then some h
    else if not (is_lost now h)
    then some h
    else if launched
    then some (record h { last_heartbeat = now })
    else none

unfoldable pub pass : ℕ → Moment → Heartbeat → Option Heartbeat
unfolding watch receive_beat begin_busy end_busy
pass now beat h = some (receive_beat now h)
pass now busy_start h = some (begin_busy h)
pass now busy_end h = some (end_busy now h)
pass now (tick launched) h = watch now launched h

pub pass_on : ℕ → Moment → Option Heartbeat → Option Heartbeat
unfolding pass
pass_on now moment none = none
pass_on now moment (some h) = pass now moment h

-- A history, the newest moment first: the state after it, unless the program has exited.
unfoldable pub after : List (ℕ × Moment) → Heartbeat → Option Heartbeat
unfolding pass_on
after [] h = some h
after ((now, moment) ∷ earlier) h = pass_on now moment (after earlier h)
