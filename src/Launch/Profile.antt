-- ===== src/Launch/Profile.antt =====
-- The processes of a browser's profile: waiting for them, and closing them.
use proxy_for_windows_app.Base.{
  ℕ, ◌≡◌, ◌↔◌, refl, ap, ◌⊎◌, inl, inr, Bool, true, false, Option, none, some, List, [], ◌∷◌, ◌++◌,
  ok, err, arith, All, In, Bool-cases,
}
use proxy_for_windows_app.Launch.{LaunchError}
use proxy_for_windows_app.Launch.Processes.{
  PidQuery, wait_for_profile, force_close, await_close, close_profile,
}

-- A round in which the profile has a process, after rounds in which the started process had not exited.
abbrev pub Appears : List (PidQuery × Bool) → Type 0
Appears rounds =
    (before : List (PidQuery × Bool)) × (after : List (PidQuery × Bool)) × (pid : ℕ) × (pids : List
      ℕ)
    × (exited : Bool) × (rounds ≡ before ++ (ok (pid ∷ pids), exited) ∷ after)
    × All (λ (_, gone). gone ≡ false) before

Appears-cons :
    (q : PidQuery) (rounds : List (PidQuery × Bool))
    → Appears rounds
    → Appears ((q, false) ∷ rounds)
Appears-cons q rounds (before, after, pid, pids, exited, e, alive) =
    ((q, false) ∷ before, after, pid, pids, exited, ap (◌∷◌ (q, false)) e, (refl, alive))

wait_for_profile-Appears :
    (rounds : List (PidQuery × Bool)) (last : Option LaunchError)
    → wait_for_profile rounds last ≡ none
    → Appears rounds
unfolding wait_for_profile
wait_for_profile-Appears [] none e = absurd (ground arith)
wait_for_profile-Appears [] (some x) e = absurd (ground arith)
wait_for_profile-Appears ((ok (pid ∷ pids), exited) ∷ rounds) last e =
    ([], rounds, pid, pids, exited, refl, tt)
wait_for_profile-Appears ((ok [], true) ∷ rounds) none e = absurd (ground arith)
wait_for_profile-Appears ((ok [], true) ∷ rounds) (some x) e = absurd (ground arith)
wait_for_profile-Appears ((ok [], false) ∷ rounds) last e =
    Appears-cons (ok []) rounds (wait_for_profile-Appears rounds last e)
wait_for_profile-Appears ((err _, true) ∷ rounds) last e = absurd (ground arith)
wait_for_profile-Appears ((err x, false) ∷ rounds) last e =
    Appears-cons (err x) rounds (wait_for_profile-Appears rounds _ e)

Appears-wait_for_profile :
    (before after : List (PidQuery × Bool)) (pid : ℕ) (pids : List ℕ) (exited : Bool)
    (last : Option LaunchError)
    → All (λ (_, gone). gone ≡ false) before
    → wait_for_profile (before ++ (ok (pid ∷ pids), exited) ∷ after) last ≡ none
unfolding wait_for_profile
Appears-wait_for_profile [] after pid pids exited last alive = refl
Appears-wait_for_profile ((ok (p ∷ ps), gone) ∷ before) after pid pids exited last alive = refl
Appears-wait_for_profile ((ok [], gone) ∷ before) after pid pids exited last (e, alive) =
    rw e (Appears-wait_for_profile before after pid pids exited last alive)
Appears-wait_for_profile ((err x, gone) ∷ before) after pid pids exited last (e, alive) =
    rw e (Appears-wait_for_profile before after pid pids exited _ alive)

-- The wait succeeds exactly if some round sees a process of the profile and the started process had not
-- exited in any round before, whichever queries failed.
pub wait_for_profile-Appears_iff :
    (rounds : List (PidQuery × Bool)) (last : Option LaunchError)
    → (wait_for_profile rounds last ≡ none) ↔ Appears rounds
wait_for_profile-Appears_iff rounds last = (
  wait_for_profile-Appears rounds last,
  λ (before, after, pid, pids, exited, e, alive).
      rw e (Appears-wait_for_profile before after pid pids exited last alive),
)

module _ (force_ok : ℕ → Bool) where
  force_close-All :
      (pids : List ℕ) → (force_close force_ok pids).0 ≡ none → All (λ pid. force_ok pid ≡ true) pids
  unfolding force_close
  force_close-All [] e = tt
  force_close-All (pid ∷ pids) e = elim (Bool-cases (force_ok pid)) [
    | inl done ↦ (done, force_close-All pids (ground arith))
    | inr failed ↦ absurd (ground arith)
  ]

  -- Every process of the list ended by force.
  abbrev pub AllForced : PidQuery → Type 0
  AllForced last = (pids : List ℕ) × (last ≡ ok pids) × All (λ pid. force_ok pid ≡ true) pids

  await_close-gone :
      (polls : List PidQuery) (last : PidQuery)
      → (await_close force_ok polls last).0 ≡ none
      → In (ok []) polls ⊎ AllForced last
  unfolding await_close
  await_close-gone [] (err x) e = absurd (ground arith)
  await_close-gone [] (ok pids) e = inr (pids, refl, force_close-All pids e)
  await_close-gone (err x ∷ polls) last e = absurd (ground arith)
  await_close-gone (ok [] ∷ polls) last e = inl (inl refl)
  await_close-gone (ok (pid ∷ pids) ∷ polls) last e = elim (await_close-gone polls last e) [
    | inl seen ↦ inl (inr seen)
    | inr forced ↦ inr forced
  ]

  -- If closing the processes of a profile succeeds, then a query before the deadline found none of them
  -- left, or each one that the last query found was ended by force.
  pub close_profile-gone :
      (pids : List ℕ) (polls : List PidQuery) (last : PidQuery)
      → (close_profile force_ok pids polls last).0 ≡ none
      → In (ok []) polls ⊎ AllForced last
  unfolding close_profile
  close_profile-gone pids polls last e = await_close-gone polls last e
