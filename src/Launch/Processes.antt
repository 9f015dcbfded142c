-- ===== src/Launch/Processes.antt =====
-- The processes of a managed profile, in netmonitor-gui/main.go: `waitForProfileProcesses`,
-- `closeChromiumProfileProcesses` and `ensureChromiumProfileReadyForLaunch`.
use proxy_for_windows_app.Base.{
  ℕ, Bool, true, false, ◌&&◌, Option, none, some, List, [], ◌∷◌, ◌++◌, map, Result, ok, err,
  if◌then◌else◌, is_some,
}
use proxy_for_windows_app.Base.Text.{Text, same, Text-discrete}
use proxy_for_windows_app.Base.Dict.{lookup}
use proxy_for_windows_app.Address.{normalized_proxy_or_raw}
use proxy_for_windows_app.Config.{Application}
use proxy_for_windows_app.Apps.{Launched, Apps, Kill, remove_launched}
use proxy_for_windows_app.Launch.{
  Host, LaunchError, chromium_profile_dir, force_close_failed, no_config_dir, profile_not_found,
  query_failed,
}

-- What `chromiumPIDs` answers.
abbrev pub PidQuery : Type 0
PidQuery = Result (Unit {0}) (List ℕ)

-- The end of `waitForProfileProcesses`.
abbrev after_wait : Option LaunchError → Option LaunchError
after_wait none = some profile_not_found
after_wait (some e) = some e

-- `waitForProfileProcesses`: the answers of the rounds before the deadline, each with whether the
-- process had exited, and `lastErr`.
unfoldable pub wait_for_profile : List (PidQuery × Bool) → Option LaunchError → Option LaunchError
wait_for_profile [] last = after_wait last
wait_for_profile ((ok (pid ∷ pids), exited) ∷ rounds) last = none
wait_for_profile ((ok [], exited) ∷ rounds) last =
    let rest = wait_for_profile rounds last in if exited then after_wait last else rest
wait_for_profile ((err _, exited) ∷ rounds) last =
    let rest = wait_for_profile rounds (some query_failed) in
    if exited then some query_failed else rest

-- The loop of `closeChromiumProfileProcesses` that forces processes to end, with the calls it makes.
unfoldable pub force_close : (ℕ → Bool) → List ℕ → Option LaunchError × List Kill
force_close force_ok [] = (none, [])
force_close force_ok (pid ∷ pids) =
    let kill : Kill = record { force = true; pid = pid } in
    let (r, kills) = force_close force_ok pids in
    if force_ok pid then (r, kill ∷ kills) else (some force_close_failed, kill ∷ [])

-- `closeChromiumProfileProcesses` from its deadline on: the answers before the deadline, and the last.
unfoldable pub await_close : (ℕ → Bool) → List PidQuery → PidQuery → Option LaunchError × List Kill
unfolding force_close
await_close force_ok [] (err _) = (some query_failed, [])
await_close force_ok [] (ok pids) = force_close force_ok pids
await_close force_ok (err _ ∷ polls) last = (some query_failed, [])
await_close force_ok (ok [] ∷ polls) last = (none, [])
await_close force_ok (ok (pid ∷ pids) ∷ polls) last = await_close force_ok polls last

-- `closeChromiumProfileProcesses`
unfoldable pub close_profile :
    (ℕ → Bool) → List ℕ → List PidQuery → PidQuery → Option LaunchError × List Kill
unfolding await_close
close_profile force_ok pids polls last =
    let (r, kills) = await_close force_ok polls last in
    (r, map (λ pid. record { force = false; pid = pid }) pids ++ kills)

-- What the system answers to `ensureChromiumProfileReadyForLaunch`.
pub record ProfileAnswers : Type 0 where
  pub before : PidQuery
  pub polls : List PidQuery
  pub last : PidQuery
  pub force_ok : ℕ → Bool

-- The condition under which `ensureChromiumProfileReadyForLaunch` keeps a tracked instance.
unfoldable pub serves : (Text → Text) → Application → Launched → Bool
serves escape app item =
    is_some item.bridge
    && (item.chromium
        && same (normalized_proxy_or_raw escape item.app.proxy)
            (normalized_proxy_or_raw escape app.proxy))

unfoldable pub removed_after :
    Option LaunchError × List Kill → Option Launched → Apps → Option LaunchError × List Kill × Apps
removed_after (some e, kills) tracked a = (some e, kills, a)
removed_after (none, kills) none a = (none, kills, a)
removed_after (none, kills) (some item) a = (none, kills, remove_launched item a)

unfoldable pub replace_profile :
    (Text → Text)
    → Application
    → ProfileAnswers
    → List ℕ
    → Apps
    → Option LaunchError × List Kill × Apps
unfolding removed_after close_profile serves
replace_profile escape app q pids a =
    let close =
      λ (t : Option Launched). removed_after (close_profile q.force_ok pids q.polls q.last) t a in
    elim (lookup Text-discrete app.id a.launched) [
      | none ↦ close none
      | some item ↦ if serves escape app item then (none, [], a) else close (some item)
    ]

-- `ensureChromiumProfileReadyForLaunch`
unfoldable pub ensure_profile_ready :
    Host
    → (Text → Text)
    → Application
    → ProfileAnswers
    → Apps
    → Option LaunchError × List Kill × Apps
unfolding replace_profile
ensure_profile_ready host escape app q a = elim (chromium_profile_dir host app) [
  | none ↦ (some no_config_dir, [], a)
  | some profile_dir ↦ elim q.before [
    | err _ ↦ (some query_failed, [], a)
    | ok [] ↦ (none, [], a)
    | ok (pid ∷ pids) ↦ replace_profile escape app q (pid ∷ pids) a
  ]
]
