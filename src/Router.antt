-- ===== src/Router.antt =====
-- tun2socks/router/router.go: the routers that choose a proxy for each connection by the process
-- that owns it. A proxy is a value of a type `P`; what dialling through it does is the argument
-- `dial` of `DialContext` and `DialUDP`.
pub mod Resolver
pub mod Lineage
pub mod Owners
pub mod Rules
pub mod Refines
mod Tests
use proxy_for_windows_app.Base.{
  ℕ, zero, suc, true, false, ◌||◌, Option, none, some, List, [], ◌∷◌, Result, ok, err, ◌==◌,
  if◌then◌else◌, value_or, ℕ_discrete, is_some,
}
use proxy_for_windows_app.Base.Text.{Text, trim_space, Text-discrete}
use proxy_for_windows_app.Base.Dict.{Dict, lookup, insert, erase}

-- The errors of the router and of its resolver.
pub data RouterError : Type 0 where
  no_process_names unsupported_network owner_not_found parent_not_found system_call : RouterError

pub record OwnerInfo : Type 0 where
  pub pid : ℕ
  pub process_name : Text

-- The state behind a `*PIDRouter`.
pub record PidRouter (P : Type 0) : Type 0 where
  pub direct : P
  pub targets : Dict ℕ P
  pub labels : Dict ℕ Text

pub record ProcessRouter (P : Type 0) : Type 0 where
  pub proxied : P
  pub direct : P
  pub targets : Dict Text (Unit {0})

-- How many generations `pick` climbs.
abbrev pub max_depth : ℕ
max_depth = 12

-- The body of the loop of `NewProcessRouter`: an empty name is passed over.
add_name : Text → Dict Text (Unit {0}) → Dict Text (Unit {0})
add_name [] targets = targets
add_name (c ∷ s) targets = insert Text-discrete (c ∷ s) tt targets

-- The loop of `NewProcessRouter` over `processNames`.
unfoldable pub collect_names :
    (Text → Text) → List Text → Dict Text (Unit {0}) → Dict Text (Unit {0})
unfolding add_name
collect_names to_lower [] targets = targets
collect_names to_lower (name ∷ names) targets =
    collect_names to_lower names (add_name (to_lower (trim_space name)) targets)

module _ {P : Type 0} where
  -- `NewPIDRouter`; the argument is the error of `newProcessResolver`.
  unfoldable pub new_pid_router : Option RouterError → P → Result RouterError (PidRouter P)
  new_pid_router (some e) direct = err e
  new_pid_router none direct = ok (record { direct = direct; targets = []; labels = [] })

  -- `(*PIDRouter).Set`
  unfoldable pub set_rule : PidRouter P → ℕ → P → Text → PidRouter P
  set_rule r pid proxied label = record r {
    targets = insert ℕ_discrete pid proxied r.targets;
    labels = insert ℕ_discrete pid label r.labels;
  }

  -- `(*PIDRouter).Delete`
  unfoldable pub delete_rule : PidRouter P → ℕ → PidRouter P
  delete_rule r pid = record r {
    targets = erase ℕ_discrete pid r.targets;
    labels = erase ℕ_discrete pid r.labels;
  }

  -- The loop over `depth` in `(*PIDRouter).pick`, with `rounds` rounds left: each round asks for the
  -- parent of `current` in a new snapshot of the processes, the one numbered `depth`.
  unfoldable pub climb : (ℕ → ℕ → Result RouterError ℕ) → Dict ℕ P → ℕ → ℕ → ℕ → Option P
  climb parent_pid targets zero depth current = none
  climb parent_pid targets (suc rounds) depth current = elim (parent_pid depth current) [
    | err e ↦ none
    | ok parent ↦ elim (parent == 0 || parent == current) [
      | true ↦ none
      | false ↦ elim (lookup ℕ_discrete parent targets) [
        | some proxied ↦ some proxied
        | none ↦ climb parent_pid targets rounds (suc depth) parent
      ]
    ]
  ]

  -- `(*PIDRouter).pick`, given the answer of `Resolve`.
  unfoldable pub pick_pid :
      (ℕ → ℕ → Result RouterError ℕ) → PidRouter P → Result RouterError OwnerInfo → P
  pick_pid parent_pid r (err e) = r.direct
  pick_pid parent_pid r (ok owner) = elim (lookup ℕ_discrete owner.pid r.targets) [
    | some proxied ↦ proxied
    | none ↦ value_or (climb parent_pid r.targets max_depth 0 owner.pid) r.direct
  ]

  unfoldable pub new_process_router :
      (Text → Text) → Option RouterError → P → P → List Text → Result RouterError (ProcessRouter P)
  unfolding collect_names
  new_process_router to_lower (some e) proxied direct names = err e
  new_process_router to_lower none proxied direct names = elim (collect_names to_lower names []) [
    | [] ↦ err no_process_names
    | target ∷ targets ↦
        ok (record { proxied = proxied; direct = direct; targets = target ∷ targets })
  ]

  -- `(*processRouter).pick`, given the answer of `Resolve`.
  unfoldable pub pick_process : (Text → Text) → ProcessRouter P → Result RouterError OwnerInfo → P
  pick_process to_lower r (err e) = r.direct
  pick_process to_lower r (ok owner) =
      if is_some (lookup Text-discrete (to_lower owner.process_name) r.targets)
      then r.proxied
      else r.direct
