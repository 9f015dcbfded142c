-- ===== src/Router/Rules.antt =====
-- What `Set` and `Delete` change of the choices of a PID router.
use mathlib.Core.Logic.{if_neg}
use proxy_for_windows_app.Base.{
  ℕ, zero, suc, ◌≤◌, ◌≡◌, refl, ◌∙◌, inl, inr, ◌||◌, none, some, [], Result, ok, err, arith, ◌==◌,
  ℕ_discrete, Bool-cases, Result-cases, is_some,
}
use proxy_for_windows_app.Base.Text.{Text}
use proxy_for_windows_app.Base.Dict.{Dict, lookup, lookup-insert, lookup-erase}
use proxy_for_windows_app.Router.{
  RouterError, OwnerInfo, PidRouter, climb, pick_pid, new_pid_router, set_rule, delete_rule,
}
use proxy_for_windows_app.Router.Lineage.{Descends, self, child}

-- Every rule has a label and every label a rule.
abbrev pub Labelled : {P : Type 0} → PidRouter P → Type 0
Labelled r =
    (pid : ℕ) → is_some (lookup ℕ_discrete pid r.targets) ≡ is_some (lookup ℕ_discrete pid r.labels)

module _ {P : Type 0} where
  -- A new PID router is labelled and sends every connection direct, whoever owns it.
  pub new_pid_router-Labelled :
      (direct : P) (r : PidRouter P)
      → new_pid_router none direct ≡ ok r
      → Labelled r × (r.direct ≡ direct) × (r.targets ≡ [])
  unfolding new_pid_router lookup
  new_pid_router-Labelled direct r e = (λ pid. ground arith, ground arith, ground arith)

  -- `Set` keeps every rule labelled.
  pub set_rule-Labelled :
      (r : PidRouter P) (pid : ℕ) (x : P) (label : Text)
      → Labelled r
      → Labelled (set_rule r pid x label)
  unfolding set_rule
  set_rule-Labelled r pid x label h j = ground (
    arith,
    h j,
    lookup-insert ℕ_discrete j pid x r.targets,
    lookup-insert ℕ_discrete j pid label r.labels,
  )

  pub delete_rule-Labelled : (r : PidRouter P) (pid : ℕ) → Labelled r → Labelled (delete_rule r pid)
  unfolding delete_rule
  delete_rule-Labelled r pid h j =
      ground (
        arith,
        h j,
        lookup-erase ℕ_discrete j pid r.targets,
        lookup-erase ℕ_discrete j pid r.labels,
      )

module _ {P : Type 0} (parent_pid : ℕ → ℕ → Result RouterError ℕ) where
  climb-agree :
      (s t : Dict ℕ P) (rounds depth pid : ℕ)
      → ((b j : ℕ)
          → Descends parent_pid depth pid b j
          → j ≤ rounds
          → lookup ℕ_discrete b s ≡ lookup ℕ_discrete b t)
      → climb parent_pid s rounds depth pid ≡ climb parent_pid t rounds depth pid
  unfolding climb
  climb-agree s t zero depth pid same = refl
  climb-agree s t (suc rounds) depth pid same = elim (Result-cases (parent_pid depth pid)) [
    | inr (x, e) ↦ rw (e, climb)
    | inl (p, e) ↦ elim (Bool-cases (p == 0 || p == pid)) [
      | inl stop ↦ ground arith
      | inr on ↦
          let up = climb-agree s t rounds (suc depth) p (λ b j line below.
            same b (suc j) (child e (ground arith) (ground arith) line) (omega arith)) in
          let here = same p 1 (child e (ground arith) (ground arith) self) (omega arith) in
          ground arith
    ]
  ]

  pick_pid-agree :
      (r s : PidRouter P) (owner : OwnerInfo)
      → r.direct ≡ s.direct
      → ((b j : ℕ)
          → Descends parent_pid 0 owner.pid b j
          → j ≤ 12
          → lookup ℕ_discrete b r.targets ≡ lookup ℕ_discrete b s.targets)
      → pick_pid parent_pid r (ok owner) ≡ pick_pid parent_pid s (ok owner)
  unfolding pick_pid
  pick_pid-agree r s owner d same =
      let up = climb-agree r.targets s.targets 12 0 owner.pid same in
      let here = same owner.pid 0 self (omega arith) in ground arith

  -- Setting a rule for a process changes nothing for a connection whose owner neither is that process
  -- nor descends from it by at most 12 generations.
  pub pick_pid-set_rule_frame :
      (r : PidRouter P) (owner : OwnerInfo) (pid : ℕ) (x : P) (label : Text)
      → ((j : ℕ) → Descends parent_pid 0 owner.pid pid j → j ≤ 12 → ⊥)
      → pick_pid parent_pid (set_rule r pid x label) (ok owner) ≡ pick_pid parent_pid r (ok owner)
  unfolding set_rule
  pick_pid-set_rule_frame r owner pid x label apart =
      pick_pid-agree (set_rule r pid x label) r owner refl (λ b j line below.
        elim (ℕ_discrete b pid) [
          | yes e ↦ absurd (apart j (rw e at line) below)
          | no n ↦
              lookup-insert ℕ_discrete b pid x r.targets ∙ if_neg (ℕ_discrete b pid) n (some x) _
        ])

  -- Deleting the rule that was set for a process without one restores every choice.
  pub pick_pid-delete_rule-set_rule :
      (r : PidRouter P) (found : Result RouterError OwnerInfo) (pid : ℕ) (x : P) (label : Text)
      → lookup ℕ_discrete pid r.targets ≡ none
      → pick_pid parent_pid (delete_rule (set_rule r pid x label) pid) found
        ≡ pick_pid parent_pid r found
  unfolding set_rule delete_rule pick_pid
  pick_pid-delete_rule-set_rule r (err e) pid x label free = refl
  pick_pid-delete_rule-set_rule r (ok owner) pid x label free =
      pick_pid-agree (delete_rule (set_rule r pid x label) pid) r owner refl (λ b j line below.
        ground (
          arith,
          lookup-insert ℕ_discrete b pid x r.targets,
          lookup-erase ℕ_discrete b pid (set_rule r pid x label).targets,
        ))
