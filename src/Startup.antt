-- ===== src/Startup.antt =====
-- The start and the restart of the GUI program in netmonitor-gui/main.go: the decisions of `main`,
-- `hasArg`, `existingInstanceRunning`, `ensureWintunDLL`, and the handler of `/restart` with the process
-- that it starts.
pub mod Restart
mod Tests
use proxy_for_windows_app.Base.{
  ℕ, ◌≢◌, Bool, true, false, not, ◌&&◌, Option, none, some, List, [], ◌∷◌, ◌==◌, if◌then◌else◌, any,
  keep, Result, ok, err,
}
use proxy_for_windows_app.Base.Text.{Text, codes, same}

-- `hasArg`, for `os.Args[1:]`.
unfoldable pub has_arg : Text → List Text → Bool
has_arg target args = any (same target) args

-- What a request to `/ping` gives: the status, and the body if it can be read.
abbrev pub Ping : Type 0
Ping = Option (ℕ × Option Text)

pong_read : ℕ → Option Text → Bool
pong_read code none = false
pong_read code (some text) = code == 200 && same text (codes "pong")

-- `existingInstanceRunning`
unfoldable pub existing_instance_running : Ping → Bool
unfolding pong_read
existing_instance_running none = false
existing_instance_running (some (code, text)) = pong_read code text

-- What a start of the program comes to.
pub data Started : Type 0 where
  -- elevation was requested, and the process ends
  asked_elevation : Started
  -- the window of the instance that runs was opened, and the process ends
  reopened : Started
  serving : Started

-- The decisions of `main`, given `isElevated`, the arguments and the answer to the ping.
unfoldable pub start_up : Bool → List Text → Ping → Started
unfolding has_arg existing_instance_running
start_up elevated args ping =
    if not elevated && not (has_arg (codes "--elevated") args)
    then asked_elevation
    else if existing_instance_running ping
    then reopened
    else serving

-- The arguments that the handler of `/restart` gives the new process.
unfoldable pub restart_args : List Text → List Text
restart_args args = codes "-no-browser" ∷ keep (λ arg. not (same arg (codes "-no-browser"))) args

-- What `os.WriteFile` does: it succeeds, or it leaves something at the path.
pub data Write : Type 0 where
  written : Write
  torn : Option (List ℕ) → Write

current_is : List ℕ → Option (List ℕ) → Bool
current_is dll none = false
current_is dll (some bytes) = same bytes dll

dll_after : List ℕ → Write → Result (Unit {0}) (Unit {0}) × Option (List ℕ)
dll_after dll written = (ok tt, some dll)
dll_after dll (torn left) = (err tt, left)

-- `ensureWintunDLL`, behind `os.Executable`: the result, and the file next to the program.
unfoldable pub ensure_wintun_dll :
    List ℕ → Write → Option (List ℕ) → Result (Unit {0}) (Unit {0}) × Option (List ℕ)
unfolding current_is dll_after
ensure_wintun_dll dll write current =
    if current_is dll current then (ok tt, current) else dll_after dll write

-- `/restart`: the process that handles the request, and the one that it starts.
pub data Parent : Type 0 where
  up exited : Parent

pub data Child : Type 0 where
  not_started starting running ended : Child

pub record World : Type 0 where
  pub parent : Parent
  pub child : Child

-- What a ping gets: an instance that is up answers.
unfoldable pub answer : Parent → Ping
answer up = some (200, some (codes "pong"))
answer exited = none

becomes : Started → Child
becomes asked_elevation = ended
becomes reopened = ended
becomes serving = running

-- What the new process comes to when it reaches the ping.
unfoldable pub child_start : Bool → List Text → Parent → Child
unfolding becomes answer restart_args
child_start elevated args p = becomes (start_up elevated (restart_args args) (answer p))

-- The parent starts the child and goes on to shut down and to exit; the child runs meanwhile.
pub data Step (elevated : Bool) (args : List Text) : World → World → Type 0 where
  spawn :
      Step elevated args
        (record { parent = up; child = not_started })
        (record { parent = up; child = starting })
  check :
      (p : Parent)
      → Step elevated args
          (record { parent = p; child = starting })
          (record { parent = p; child = child_start elevated args p })
  exit :
      (c : Child)
      → c ≢ not_started
      → Step elevated args
          (record { parent = up; child = c })
          (record { parent = exited; child = c })
