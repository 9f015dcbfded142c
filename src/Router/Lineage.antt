-- ===== src/Router/Lineage.antt =====
-- `(*PIDRouter).pick` against the ancestry of the process that owns a connection.
use proxy_for_windows_app.Base.{
  ℕ, zero, suc, ◌≤◌, ◌<◌, ◌≡◌, refl, ◌∙◌, ◌≢◌, inl, inr, ◌||◌, Option, none, some, Result, ok,
  arith, ◌==◌, ℕ_discrete, Bool-cases, Result-cases,
}
use proxy_for_windows_app.Base.Dict.{Dict, lookup}
use proxy_for_windows_app.Router.{RouterError, OwnerInfo, PidRouter, climb, pick_pid}

-- `anc` is the ancestor of `pid` by so many generations, each parent as the snapshot of its round
-- shows it, snapshots being numbered from `depth`. Neither process 0 nor a process that is its own
-- parent is climbed through.
pub data Descends (parent_pid : ℕ → ℕ → Result RouterError ℕ) : ℕ → ℕ → ℕ → ℕ → Type 0 where
  self : {depth pid : ℕ} → Descends parent_pid depth pid pid zero
  child :
      {depth pid parent anc k : ℕ}
      → parent_pid depth pid ≡ ok parent
      → parent ≢ 0
      → parent ≢ pid
      → Descends parent_pid (suc depth) parent anc k
      → Descends parent_pid depth pid anc (suc k)

module _ {P : Type 0} (parent_pid : ℕ → ℕ → Result RouterError ℕ) (targets : Dict ℕ P) where
  abbrev rule_of : ℕ → Option P
  rule_of pid = lookup ℕ_discrete pid targets

  climb-parent :
      (rounds depth pid parent : ℕ)
      → parent_pid depth pid ≡ ok parent
      → parent ≢ 0
      → parent ≢ pid
      → ((x : P)
          → rule_of parent ≡ some x
          → climb parent_pid targets (suc rounds) depth pid ≡ some x)
        × (rule_of parent ≡ none
            → climb parent_pid targets (suc rounds) depth pid
              ≡ climb parent_pid targets rounds (suc depth) parent)
  unfolding climb
  climb-parent rounds depth pid parent e nz ns = (λ x h. ground arith, λ h. ground arith)

  pub climb-nearest :
      {depth pid anc k : ℕ} {x : P}
      → Descends parent_pid depth pid anc k
      → (rounds : ℕ) → 0 < k
      → k ≤ rounds
      → rule_of anc ≡ some x
      → ((b j : ℕ) → Descends parent_pid depth pid b j → 0 < j → j < k → rule_of b ≡ none)
      → climb parent_pid targets rounds depth pid ≡ some x
  climb-nearest self rounds pos fits ruled nearer = absurd (omega arith)
  climb-nearest (child e nz ns rest) zero pos fits ruled nearer = absurd (omega arith)
  climb-nearest {depth} {pid} {x = x} (child e nz ns self) (suc rounds) pos fits ruled nearer =
      (climb-parent rounds depth pid _ e nz ns).0 x ruled
  climb-nearest {depth} {pid} (child {parent = p} e nz ns (child {k = k} e' nz' ns' rest))
        (suc rounds) pos fits ruled nearer =
      (climb-parent rounds depth pid p e nz ns).1
        (nearer p 1 (child e nz ns self) (omega arith) (omega arith))
      ∙ climb-nearest (child e' nz' ns' rest) rounds (omega arith) (omega arith) ruled
          (λ b j line above below.
            nearer b (suc j) (child e nz ns line) (omega arith) (omega arith))

  climb-none :
      (rounds depth pid : ℕ)
      → ((b j : ℕ) → Descends parent_pid depth pid b j → 0 < j → j ≤ rounds → rule_of b ≡ none)
      → climb parent_pid targets rounds depth pid ≡ none
  unfolding climb
  climb-none zero depth pid unruled = refl
  climb-none (suc rounds) depth pid unruled = elim (Result-cases (parent_pid depth pid)) [
    | inr (x, e) ↦ rw (e, climb)
    | inl (p, e) ↦ elim (Bool-cases (p == 0 || p == pid)) [
      | inl stop ↦ ground arith
      | inr on ↦
          (climb-parent rounds depth pid p e (ground arith) (ground arith)).1
            (unruled p 1 (child e (ground arith) (ground arith) self) (omega arith) (omega arith))
          ∙ climb-none rounds (suc depth) p (λ b j line above below.
            unruled b (suc j) (child e (ground arith) (ground arith) line) (omega arith)
              (omega arith))
    ]
  ]

module _ {P : Type 0} (parent_pid : ℕ → ℕ → Result RouterError ℕ) (r : PidRouter P) where
  -- A connection whose owner descends, by at most 12 generations, from a process with a rule goes to
  -- the proxy of that rule, if no process between them, nor the owner itself where it is not that
  -- process, has a rule.
  pub pick_pid-nearest :
      (owner : OwnerInfo) {anc k : ℕ} {x : P}
      → Descends parent_pid 0 owner.pid anc k
      → k ≤ 12
      → lookup ℕ_discrete anc r.targets ≡ some x
      → ((b j : ℕ)
          → Descends parent_pid 0 owner.pid b j
          → j < k
          → lookup ℕ_discrete b r.targets ≡ none)
      → pick_pid parent_pid r (ok owner) ≡ x
  unfolding pick_pid
  pick_pid-nearest owner self fits ruled nearer = ground arith
  pick_pid-nearest owner (child {k = k} e nz ns line) fits ruled nearer =
      let here = nearer owner.pid 0 self (omega arith) in
      let up =
        climb-nearest parent_pid r.targets (child e nz ns line) 12 (omega arith) fits ruled
          (λ b j l above below. nearer b j l below) in
      rw (here, pick_pid) (rw (up, pick_pid) refl)

  -- If neither the owner of a connection nor an ancestor within 12 generations has a rule, the
  -- connection goes direct.
  pub pick_pid-direct :
      (owner : OwnerInfo)
      → ((b j : ℕ)
          → Descends parent_pid 0 owner.pid b j
          → j ≤ 12
          → lookup ℕ_discrete b r.targets ≡ none)
      → pick_pid parent_pid r (ok owner) ≡ r.direct
  unfolding pick_pid
  pick_pid-direct owner unruled =
      let here = unruled owner.pid 0 self (omega arith) in
      let up =
        climb-none parent_pid r.targets 12 0 owner.pid (λ b j l above below. unruled b j l below) in
      rw (here, pick_pid) (rw (up, pick_pid) refl)
