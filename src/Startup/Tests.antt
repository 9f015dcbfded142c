-- ===== src/Startup/Tests.antt =====
-- Starts and restarts at concrete arguments.
use proxy_for_windows_app.Base.{◌≡◌, refl, true, false, none, some, [], ◌∷◌, ok, ℕ_discrete, arith}
use proxy_for_windows_app.Base.Text.{codes, Text-discrete}
use proxy_for_windows_app.Startup.{
  World, up, exited, ended, Step, spawn, check, exit, child_start, start_up,
  existing_instance_running, answer, restart_args, serving, asked_elevation, has_arg,
  ensure_wintun_dll, torn,
}
use proxy_for_windows_app.Startup.Restart.{
  Run, start, more, Stuck, behind_first, outcome, restart-order,
}

test_start : start_up true (codes "x" ∷ []) none ≡ serving
unfolding start_up has_arg existing_instance_running
test_start = refl

test_elevation : start_up false (codes "x" ∷ []) none ≡ asked_elevation
unfolding start_up has_arg Text-discrete ℕ_discrete
test_elevation = refl

test_args :
    restart_args (codes "a" ∷ codes "-no-browser" ∷ []) ≡ codes "-no-browser" ∷ codes "a" ∷ []
unfolding restart_args Text-discrete ℕ_discrete
test_args = refl

test_dll : ensure_wintun_dll (1 ∷ []) (torn none) (some (1 ∷ [])) ≡ (ok tt, some (1 ∷ []))
unfolding ensure_wintun_dll Text-discrete ℕ_discrete
test_dll = refl

abbrev nobody : World
nobody = record { parent = exited; child = ended }

nobody-Stuck : Stuck true [] nobody
unfolding Stuck
nobody-Stuck u step = ended-stays step refl refl
  where
    ended-stays : {w v : World} → Step true [] w v → w.parent ≡ exited → w.child ≡ ended → ⊥
    ended-stays spawn p c = ground arith
    ended-stays (check q) p c = ground arith
    ended-stays (exit c some_child) p e = ground arith

-- The new process asks first.
asks_first : Run true [] (behind_first true [] up) nobody
unfolding behind_first child_start start_up answer existing_instance_running Text-discrete
    ℕ_discrete
asks_first = more start (exit ended (λ h. ground arith))

restart-order_example : (nobody.parent ≡ exited) × (nobody.child ≡ outcome true [] up)
restart-order_example = restart-order true [] up nobody refl asks_first nobody-Stuck
