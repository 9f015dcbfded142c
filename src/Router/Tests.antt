-- ===== src/Router/Tests.antt =====
-- Runs of the routers, and their theorems at concrete data.
use proxy_for_windows_app.Base.{
  ℕ, ◌+◌, ◌*◌, ◌/◌, ◌%◌, ◌≤◌, ◌<◌, ◌≡◌, refl, none, [], ◌∷◌, Result, ok, err, arith, ◌==◌,
  if◌then◌else◌, ℕ_discrete,
}
use proxy_for_windows_app.Base.Text.{codes, Text-discrete, trim_space}
use proxy_for_windows_app.Base.FilePath.{after_separator}
use proxy_for_windows_app.Base.Dict.{lookup, insert}
use proxy_for_windows_app.Router.{
  RouterError, parent_not_found, OwnerInfo, PidRouter, ProcessRouter, new_pid_router, pick_pid,
  set_rule, climb, new_process_router, pick_process, collect_names,
}
use proxy_for_windows_app.Router.Resolver.{
  Metadata, v4, v6, tcp, TcpRow, owns_tcp, find_tcp_pid, resolve, image_name,
}
use proxy_for_windows_app.Router.Lineage.{Descends, self, child, pick_pid-nearest}
use proxy_for_windows_app.Router.Refines.{
  Change, set, delete, router_after, rules_after, ancestors, first_rule, choose, pick_pid-choose,
}
use proxy_for_windows_app.Base.{List}
use proxy_for_windows_app.Router.Rules.{Labelled}
use proxy_for_windows_app.Router.Owners.{pick_pid-ipv6_direct}

-- Process 30 is a child of 20, which is a child of 10, which has no living parent.
abbrev parents : ℕ → ℕ → Result RouterError ℕ
parents depth pid = if pid == 30 then ok 20 else if pid == 20 then ok 10 else err parent_not_found

abbrev quiet : PidRouter ℕ
quiet = record { direct = 0; targets = []; labels = [] }

-- Proxy 7 for process 10.
abbrev ruled : PidRouter ℕ
ruled = record { direct = 0; targets = (10, 7) ∷ []; labels = (10, codes "app") ∷ [] }

abbrev grandchild : OwnerInfo
grandchild = record { pid = 30; process_name = codes "x.exe" }

abbrev stranger : OwnerInfo
stranger = record { pid = 99; process_name = codes "y.exe" }

inherits : pick_pid parents ruled (ok grandchild) ≡ 7
unfolding pick_pid climb lookup ℕ_discrete
inherits = refl

rule_is_set : set_rule quiet 10 7 (codes "app") ≡ ruled
unfolding set_rule insert ℕ_discrete
rule_is_set = refl

abbrev line : Descends parents 0 30 10 2
line = child refl (omega arith) (omega arith) (child refl (omega arith) (omega arith) self)

unruled : (b j : ℕ) → Descends parents 0 30 b j → j < 2 → lookup ℕ_discrete b ruled.targets ≡ none
unfolding lookup ℕ_discrete
unruled b j self below = refl
unruled b j (child e nz ns self) below = ground arith
unruled b j (child e nz ns (child e' nz' ns' l)) below = absurd (omega arith)

pick_pid-nearest_example : pick_pid parents ruled (ok grandchild) ≡ 7
unfolding lookup ℕ_discrete
pick_pid-nearest_example = pick_pid-nearest parents ruled grandchild line (omega arith) refl unruled

unrelated :
    (b j : ℕ) → Descends parents 0 99 b j → j ≤ 12 → lookup ℕ_discrete b ruled.targets ≡ none
unfolding lookup ℕ_discrete
unrelated b j self below = refl
unrelated b j (child e nz ns l) below = cc e

apart : (j : ℕ) → Descends parents 0 99 10 j → j ≤ 12 → ⊥
apart j (child e nz ns l) below = cc e

ruled-Labelled : Labelled ruled
unfolding lookup
ruled-Labelled pid = ground arith

-- 10.0.0.2:443 to 1.2.3.4:80, ports as the system stores them.
abbrev swap : ℕ → ℕ
swap n = n % 256 * 256 + n / 256

abbrev flow : Metadata
flow = record {
  network = tcp;
  src_ip = v4 10 0 0 2;
  src_port = 443;
  dst_ip = v4 1 2 3 4;
  dst_port = 80;
}

abbrev flow6 : Metadata
flow6 = record flow { src_ip = v6 (1 ∷ []); dst_ip = v6 (2 ∷ []) }

abbrev row : TcpRow
row = record {
  local_addr = 0x0200000a;
  local_port = 0xbb01;
  remote_addr = 0x04030201;
  remote_port = 0x5000;
  owning_pid = 30;
}

abbrev idle_row : TcpRow
idle_row = record row { remote_addr = 0; owning_pid = 4 }

finds_owner : find_tcp_pid swap (ok (idle_row ∷ row ∷ [])) flow ≡ ok 30
unfolding find_tcp_pid owns_tcp
finds_owner = refl

pick_pid-ipv6_direct_example :
    pick_pid parents ruled (resolve swap (ok (row ∷ [])) (ok []) (λ pid. ok (codes "x.exe")) flow6)
    ≡ 0
pick_pid-ipv6_direct_example =
    pick_pid-ipv6_direct swap flow6 parents ruled (ok (row ∷ [])) (ok [])
      (λ pid. ok (codes "x.exe")) (1 ∷ []) refl

takes_base_name : image_name (codes "C:\\bin/x.exe") ≡ codes "x.exe"
unfolding image_name after_separator
takes_base_name = refl

-- What a router for the names `names` picks for the grandchild.
abbrev pick_named : Result RouterError (ProcessRouter ℕ) → ℕ
pick_named (ok r) = pick_process (λ t. t) r (ok grandchild)
pick_named (err e) = 1

routes_by_name : pick_named (new_process_router (λ t. t) none 7 0 (codes " x.exe" ∷ [] ∷ [])) ≡ 7
unfolding new_process_router collect_names trim_space pick_process lookup insert Text-discrete
    ℕ_discrete
routes_by_name = refl

-- Two rules are set for process 10 and one for 20, which is deleted again.
abbrev changes : List (Change ℕ)
changes = delete 20 ∷ set 20 8 (codes "b") ∷ set 10 7 (codes "a") ∷ set 10 6 (codes "a") ∷ []

test_chosen : choose parents (rules_after changes) 0 (ok grandchild) ≡ 7
unfolding choose ancestors first_rule rules_after
test_chosen = refl

pick_pid-choose_example :
    pick_pid parents (router_after quiet changes) (ok grandchild)
    ≡ choose parents (rules_after changes) 0 (ok grandchild)
unfolding new_pid_router
pick_pid-choose_example = pick_pid-choose parents none 0 quiet changes (ok grandchild) refl
