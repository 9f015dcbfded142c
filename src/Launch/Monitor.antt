-- ===== src/Launch/Monitor.antt =====
-- What watches a launched application in netmonitor-gui/main.go: `monitorLaunchedApplication` and
-- `monitorChromiumApplication`. A round of the loop is what `chromiumPIDs` answers and whether the
-- deadline has passed then.
use proxy_for_windows_app.Base.{
  ◌↔◌, ◌≡◌, refl, ap, ◌∙◌, ◌⊎◌, inl, inr, Bool, true, false, ◌||◌, List, [], ◌∷◌, ◌++◌, ok, err,
  if◌then◌else◌, any, arith,
}
use proxy_for_windows_app.Apps.{Launched, Apps, remove_launched}
use proxy_for_windows_app.Launch.Processes.{PidQuery}

-- The loop of `monitorChromiumApplication`, with its variable `seen`: whether it has ended.
unfoldable pub monitor_chromium : Bool → List (PidQuery × Bool) → Bool
monitor_chromium seen [] = false
monitor_chromium seen ((err _, late) ∷ rounds) = monitor_chromium seen rounds
monitor_chromium seen ((ok (pid ∷ pids), late) ∷ rounds) = monitor_chromium true rounds
monitor_chromium seen ((ok [], late) ∷ rounds) =
    let rest = monitor_chromium seen rounds in if seen then true else if late then true else rest

-- `monitorLaunchedApplication` after the `Wait` for the process: the applications that are tracked.
unfoldable pub monitor_launched : Launched → List (PidQuery × Bool) → Apps → Apps
unfolding monitor_chromium
monitor_launched item rounds a =
    if item.chromium
    then (if monitor_chromium false rounds then remove_launched item a else a)
    else remove_launched item a

-- A round that finds a process.
unfoldable pub finds : PidQuery × Bool → Bool
finds (err _, late) = false
finds (ok [], late) = false
finds (ok (pid ∷ pids), late) = true

-- A round finds no process, and the deadline has passed or an earlier round has found one.
unfoldable pub Ends : Bool → List (PidQuery × Bool) → Type 0
Ends seen rounds =
    (before : List (PidQuery × Bool)) × (after : List (PidQuery × Bool)) × (late : Bool) × (rounds
      ≡ before ++ (ok [], late) ∷ after)
    × ((late ≡ true) ⊎ ((seen || any finds before) ≡ true))

Ends-later :
    (seen seen' : Bool) (round : PidQuery × Bool) (rounds : List (PidQuery × Bool))
    → (seen' ≡ (seen || finds round))
    → Ends seen' rounds
    → Ends seen (round ∷ rounds)
unfolding Ends
Ends-later seen seen' round rounds now (before, after, late, e, why) =
    (round ∷ before, after, late, ap (◌∷◌ round) e, ground arith)

monitor_chromium-Ends :
    (seen : Bool) (rounds : List (PidQuery × Bool))
    → monitor_chromium seen rounds ≡ true
    → Ends seen rounds
unfolding monitor_chromium finds Ends
monitor_chromium-Ends seen [] e = ground arith
monitor_chromium-Ends seen ((err x, late) ∷ rounds) e =
    Ends-later seen seen (err x, late) rounds (ground arith) (monitor_chromium-Ends seen rounds e)
monitor_chromium-Ends seen ((ok (pid ∷ pids), late) ∷ rounds) e =
    Ends-later seen true (ok (pid ∷ pids), late) rounds (ground arith)
      (monitor_chromium-Ends true rounds e)
monitor_chromium-Ends true ((ok [], late) ∷ rounds) e = ([], rounds, late, refl, inr refl)
monitor_chromium-Ends false ((ok [], true) ∷ rounds) e = ([], rounds, true, refl, inl refl)
monitor_chromium-Ends false ((ok [], false) ∷ rounds) e =
    Ends-later false false (ok [], false) rounds refl (monitor_chromium-Ends false rounds e)

monitor_chromium-at :
    (seen : Bool) (before after : List (PidQuery × Bool)) (late : Bool)
    → (late ≡ true) ⊎ ((seen || any finds before) ≡ true)
    → monitor_chromium seen (before ++ (ok [], late) ∷ after) ≡ true
unfolding monitor_chromium finds
monitor_chromium-at seen [] after late why = ground arith
monitor_chromium-at seen ((err x, l) ∷ before) after late why =
    monitor_chromium-at seen before after late (ground arith)
monitor_chromium-at seen ((ok (pid ∷ pids), l) ∷ before) after late why =
    monitor_chromium-at true before after late (inr refl)
monitor_chromium-at true ((ok [], l) ∷ before) after late why = refl
monitor_chromium-at false ((ok [], true) ∷ before) after late why = refl
monitor_chromium-at false ((ok [], false) ∷ before) after late why =
    monitor_chromium-at false before after late (ground arith)

-- The monitor of a browser gives it up in a run of rounds exactly if one of them finds no process of its
-- profile, after an earlier one has found some, or after the deadline.
pub monitor_chromium-Ends_iff :
    (rounds : List (PidQuery × Bool)) → (monitor_chromium false rounds ≡ true) ↔ Ends false rounds
unfolding Ends
monitor_chromium-Ends_iff rounds = (
  monitor_chromium-Ends false rounds,
  λ (before, after, late, e, why).
      ap (monitor_chromium false) e ∙ monitor_chromium-at false before after late why,
)
