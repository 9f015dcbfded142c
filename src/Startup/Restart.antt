-- ===== src/Startup/Restart.antt =====
-- How a restart ends.
use mathlib.Core.Path.{subst}
use proxy_for_windows_app.Base.{
  ◌≡◌, ◌≢◌, refl, sym, ap, ◌∙◌, ℕ_discrete, ◌⊎◌, inl, inr, Bool, true, List, arith,
}
use proxy_for_windows_app.Base.Text.{Text, Text-discrete}
use proxy_for_windows_app.Startup.{
  World, Parent, up, exited, Child, not_started, starting, running, ended, Step, spawn, check, exit,
  child_start, start_up, answer, existing_instance_running,
}

module _ (elevated : Bool) (args : List Text) where
  pub data Run : World → World → Type 0 where
    start : {w : World} → Run w w
    more : {u v w : World} → Run u v → Step elevated args v w → Run u w

  unfoldable pub Stuck : World → Type 0
  Stuck w = (u : World) → ¬ Step elevated args w u

  child_start-up : child_start elevated args up ≡ ended
  unfolding child_start start_up answer existing_instance_running Text-discrete ℕ_discrete
  child_start-up = ground arith

  child_start-exited : elevated ≡ true → child_start elevated args exited ≡ running
  unfolding child_start start_up answer existing_instance_running
  child_start-exited high = ground arith

  Step-ended : {u v : World} → Step elevated args u v → u.child ≡ ended → v.child ≡ ended
  Step-ended spawn over = ground arith
  Step-ended (check p) over = ground arith
  Step-ended (exit c some_child) over = over

  Run-ended : {u v : World} → Run u v → u.child ≡ ended → v.child ≡ ended
  Run-ended start over = over
  Run-ended (more run step) over = Step-ended step (Run-ended run over)

  -- The old process is gone, and the new one has not been judged, or has found it gone.
  AloneAs : World → Type 0
  AloneAs w =
      (w.parent ≡ exited) × ((w.child ≡ starting) ⊎ (w.child ≡ child_start elevated args exited))

  Step-Alone : {u v : World} → Step elevated args u v → AloneAs u → AloneAs v
  unfolding AloneAs
  Step-Alone spawn alone = ground arith
  Step-Alone (check p) (gone, child) = (gone, inr (ap (child_start elevated args) gone))
  Step-Alone (exit c some_child) alone = ground arith

  Run-Alone : {u v : World} → Run u v → AloneAs u → AloneAs v
  Run-Alone start alone = alone
  Run-Alone (more run step) alone = Step-Alone step (Run-Alone run alone)

  Stuck-exited :
      (p : Parent) (c : Child)
      → Stuck (record { parent = p; child = c })
      → c ≢ not_started
      → p ≡ exited
  unfolding Stuck
  Stuck-exited exited c stuck some_child = refl
  Stuck-exited up c stuck some_child = absurd (stuck _ (exit c some_child))

  Stuck-judged : (p : Parent) (c : Child) → Stuck (record { parent = p; child = c }) → c ≢ starting
  unfolding Stuck
  Stuck-judged p c stuck e = absurd (
      stuck _ (
        subst
          (λ c'.
            Step elevated args (record { parent = p; child = c' })
              (record { parent = p; child = child_start elevated args p }))
          (sym e) (check p)))

  -- After the spawn, either the new process asks first whether an instance runs, or the old one exits
  -- first: the state behind the first of these steps, and what becomes of the new process.
  unfoldable pub behind_first : Parent → World
  behind_first up = record { parent = up; child = child_start elevated args up }
  behind_first exited = record { parent = exited; child = starting }

  unfoldable pub outcome : Parent → Child
  outcome up = ended
  outcome exited = running

  -- How a restart of an elevated instance ends depends on what comes first: if the new process asks for
  -- a running instance while the old one still answers, both end and none is left; if the old one exits
  -- before that, the new one stays and serves.
  pub restart-order :
      (first : Parent) (v : World)
      → elevated ≡ true
      → Run (behind_first first) v
      → Stuck v
      → (v.parent ≡ exited) × (v.child ≡ outcome first)
  unfolding AloneAs behind_first outcome
  restart-order up v high run stuck =
      let over = Run-ended run child_start-up in
      (Stuck-exited v.parent v.child stuck (λ none_yet. ground arith), over)
  restart-order exited v high run stuck =
      let (gone, child) = Run-Alone run (refl, inl refl) in
      elim child [
        | inl waiting ↦ absurd (Stuck-judged v.parent v.child stuck waiting)
        | inr judged ↦ (gone, judged ∙ child_start-exited high)
      ]
