-- ===== src/Router/Refines.antt =====
-- A PID router as a partial function from processes to proxies, which is all that a choice reads of it:
-- the abstract view forgets the order of the maps' entries and the labels.
use proxy_for_windows_app.Base.{
  ℕ, zero, suc, ◌≡◌, refl, ◌∙◌, ◌||◌, Option, none, some, List, [], ◌∷◌, Result, ok, err, ◌==◌,
  if◌then◌else◌, value_or, ℕ_discrete, arith, Result-cases, inl, inr,
}
use proxy_for_windows_app.Base.Text.{Text}
use proxy_for_windows_app.Base.Dict.{lookup, lookup-insert, lookup-erase}
use proxy_for_windows_app.Router.{
  RouterError, OwnerInfo, PidRouter, max_depth, new_pid_router, climb, pick_pid, set_rule,
  delete_rule,
}

-- The calls that change a router.
pub data Change (P : Type 0) : Type 0 where
  set : ℕ → P → Text → Change P
  delete : ℕ → Change P

-- The ancestors of a process, the nearest first, up to so many generations: the parents that the
-- system names one after another, as long as it names one that is neither 0 nor its own child.
unfoldable pub ancestors : (ℕ → ℕ → Result RouterError ℕ) → ℕ → ℕ → ℕ → List ℕ
ancestors parent_pid zero depth pid = []
ancestors parent_pid (suc generations) depth pid = elim (parent_pid depth pid) [
  | err e ↦ []
  | ok parent ↦
      let older = ancestors parent_pid generations (suc depth) parent in
      if parent == 0 || parent == pid then [] else parent ∷ older
]

module _ {P : Type 0} where
  -- The router `r` after some calls, the newest first.
  unfoldable pub router_after : PidRouter P → List (Change P) → PidRouter P
  router_after r [] = r
  router_after r (set pid proxied label ∷ earlier) =
      set_rule (router_after r earlier) pid proxied label
  router_after r (delete pid ∷ earlier) = delete_rule (router_after r earlier) pid

  -- The abstract state: the last call on a process counts.
  unfoldable pub rules_after : List (Change P) → ℕ → Option P
  rules_after [] pid = none
  rules_after (set changed proxied label ∷ earlier) pid =
      let before = rules_after earlier pid in if pid == changed then some proxied else before
  rules_after (delete changed ∷ earlier) pid =
      let before = rules_after earlier pid in if pid == changed then none else before

  -- What the rules give for the first process of a list that has one.
  unfoldable pub first_rule : (ℕ → Option P) → List ℕ → Option P
  first_rule rules [] = none
  first_rule rules (pid ∷ pids) =
      let later = first_rule rules pids in
      elim (rules pid) [ some proxied ↦ some proxied | none ↦ later ]

  -- The abstract choice: the first rule among the process and its ancestors up to the twelfth.
  unfoldable pub choose :
      (ℕ → ℕ → Result RouterError ℕ) → (ℕ → Option P) → P → Result RouterError OwnerInfo → P
  unfolding ancestors first_rule
  choose parent_pid rules direct (err e) = direct
  choose parent_pid rules direct (ok owner) =
      value_or (first_rule rules (owner.pid ∷ ancestors parent_pid 12 0 owner.pid)) direct

  -- A router without rules.
  IsBlank : P → PidRouter P → Type 0
  IsBlank direct r = (r.direct ≡ direct) × (r.targets ≡ [])

  new_pid_router-IsBlank :
      (failed : Option RouterError) (direct : P) (r : PidRouter P)
      → new_pid_router failed direct ≡ ok r
      → IsBlank direct r
  unfolding new_pid_router IsBlank
  new_pid_router-IsBlank none direct r made = (ground arith, ground arith)
  new_pid_router-IsBlank (some e) direct r made = absurd (ground arith)

  lookup-router_after :
      (r : PidRouter P) (changes : List (Change P)) (pid : ℕ)
      → r.targets ≡ []
      → lookup ℕ_discrete pid (router_after r changes).targets ≡ rules_after changes pid
  unfolding router_after rules_after set_rule delete_rule lookup
  lookup-router_after r [] pid blank = rw blank refl
  lookup-router_after r (set changed proxied label ∷ earlier) pid blank = ground (
    arith,
    lookup-insert ℕ_discrete pid changed proxied (router_after r earlier).targets,
    lookup-router_after r earlier pid blank,
  )
  lookup-router_after r (delete changed ∷ earlier) pid blank = ground (
    arith,
    lookup-erase ℕ_discrete pid changed (router_after r earlier).targets,
    lookup-router_after r earlier pid blank,
  )

  router_after-direct :
      (r : PidRouter P) (changes : List (Change P)) → (router_after r changes).direct ≡ r.direct
  unfolding router_after set_rule delete_rule
  router_after-direct r [] = refl
  router_after-direct r (set pid proxied label ∷ earlier) = router_after-direct r earlier
  router_after-direct r (delete pid ∷ earlier) = router_after-direct r earlier

  module _ (parent_pid : ℕ → ℕ → Result RouterError ℕ) (direct : P) (r : PidRouter P)
      (blank : IsBlank direct r) (changes : List (Change P)) where
    climb-first_rule :
        (rounds depth pid : ℕ)
        → climb parent_pid (router_after r changes).targets rounds depth pid
          ≡ first_rule (rules_after changes) (ancestors parent_pid rounds depth pid)
    unfolding climb ancestors first_rule IsBlank
    climb-first_rule zero depth pid = refl
    climb-first_rule (suc rounds) depth pid = elim (Result-cases (parent_pid depth pid)) [
      | inr (x, e) ↦ ground arith
      | inl (parent, e) ↦ ground (
        arith,
        lookup-router_after r changes parent blank.1,
        climb-first_rule rounds (suc depth) parent,
      )
    ]

    pick_pid-blank :
        (found : Result RouterError OwnerInfo)
        → pick_pid parent_pid (router_after r changes) found
          ≡ choose parent_pid (rules_after changes) direct found
    unfolding pick_pid choose first_rule IsBlank
    pick_pid-blank (err e) = router_after-direct r changes ∙ blank.0
    pick_pid-blank (ok owner) = ground (
      arith,
      lookup-router_after r changes owner.pid blank.1,
      climb-first_rule max_depth 0 owner.pid,
      router_after-direct r changes,
      blank.0,
    )

-- After any calls of `Set` and `Delete` on a router that `NewPIDRouter` has made, whatever their order, a
-- choice is that of the partial function in which the last call on each process counts: its value at the
-- first process that has one, among the owner and its ancestors up to the twelfth, or the direct proxy.
pub pick_pid-choose :
    {P : Type 0} (parent_pid : ℕ → ℕ → Result RouterError ℕ) (failed : Option RouterError)
    (direct : P) (r : PidRouter P) (changes : List (Change P))
    (found : Result RouterError OwnerInfo)
    → new_pid_router failed direct ≡ ok r
    → pick_pid parent_pid (router_after r changes) found
      ≡ choose parent_pid (rules_after changes) direct found
pick_pid-choose parent_pid failed direct r changes found made =
    pick_pid-blank parent_pid direct r (new_pid_router-IsBlank failed direct r made) changes found
