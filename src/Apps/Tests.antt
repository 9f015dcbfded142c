-- ===== src/Apps/Tests.antt =====
-- Launched applications at concrete data.
use mathlib.Core.Path.{subst, ◌∙◌}
use mathlib.Core.Logic.{ite}
use proxy_for_windows_app.Base.{
  ℕ, ◌≡◌, refl, sym, ap, value_or, arith, inl, inr, Bool, true, false, none, some, List, [], ◌∷◌,
  Result, err, In, ℕ_discrete,
}
use proxy_for_windows_app.Base.Text.{Text, codes, Text-discrete}
use proxy_for_windows_app.Base.Dict.{Dict, lookup, insert, erase}
use proxy_for_windows_app.Base.FilePath.{base_name}
use proxy_for_windows_app.Config.{Application}
use proxy_for_windows_app.Apps.{
  Launched, Apps, NameFunctions, exe_name, is_vscode, root_pids, shutdown, enter_launched,
  remove_launched, uses_proxy_bridge_mode,
}
use proxy_for_windows_app.Apps.Registry.{
  IsSound, IsFresh, IsCopy, enter_launched-IsSound, remove_launched-IsSound,
}
use proxy_for_windows_app.Apps.Shutdown.{shutdown-forces_vscode}

abbrev names : NameFunctions
names = record { to_lower = λ t. t; volume_len = λ t. 2 }

abbrev no_pids : Bool → Launched → Result (Unit {0}) (List ℕ)
no_pids late item = err tt

abbrev editor : Application
editor = record {
  id = codes "e";
  name = [];
  path = codes "C:\\code.exe";
  process_name = [];
  proxy_id = [];
  proxy = [];
}

abbrev game : Application
game = record editor { id = codes "g"; path = codes "C:\\game.exe" }

abbrev editing : Launched
editing = record {
  instance_id = codes "1";
  app = editor;
  pid = 10;
  profile_dir = [];
  chromium = true;
  keep_bridge_alive = true;
  bridge = some 5;
}

abbrev editing_again : Launched
editing_again = record editing { instance_id = codes "2"; bridge = some 6 }

abbrev playing : Launched
playing = record editing {
  instance_id = codes "3";
  app = game;
  pid = 20;
  chromium = false;
  bridge = none;
}

abbrev nothing : Apps
nothing = record { launched = []; closed = [] }

bridge_apps : uses_proxy_bridge_mode (exe_name names (codes "C:\\a\\opera.exe")) ≡ true
unfolding uses_proxy_bridge_mode exe_name base_name Text-discrete ℕ_discrete
bridge_apps = refl

replaced :
    enter_launched editing_again (enter_launched editing nothing)
    ≡ record { launched = (codes "e", editing_again) ∷ []; closed = 5 ∷ [] }
unfolding enter_launched lookup insert Text-discrete ℕ_discrete
replaced = refl

nothing-IsSound : IsSound nothing
unfolding lookup
nothing-IsSound = record {
  keyed = λ id x e. cc;
  live = λ id x b e h m. m;
  own = λ id j x y b ex ey hx hy. cc;
}

nothing-IsFresh : (b : ℕ) → IsFresh b nothing
unfolding lookup
nothing-IsFresh b = record { open_yet = λ m. m; untracked = λ id x e. cc }

enter_launched-IsSound_example : IsSound (enter_launched editing nothing)
enter_launched-IsSound_example =
    enter_launched-IsSound editing nothing nothing-IsSound (λ b e. nothing-IsFresh b)

abbrev browsing : Launched
browsing = record playing { chromium = true; keep_bridge_alive = false; bridge = some 6 }

-- Two applications with a bridge each.
abbrev both : Apps
both = record { launched = (codes "e", editing) ∷ (codes "g", browsing) ∷ []; closed = [] }

entered_both : enter_launched browsing (enter_launched editing nothing) ≡ both
unfolding enter_launched lookup insert Text-discrete ℕ_discrete
entered_both = refl

editing-IsSound : IsSound (enter_launched editing nothing)
editing-IsSound = enter_launched-IsSound editing nothing nothing-IsSound (λ b e. nothing-IsFresh b)

is_editing :
    {P : Type 0} (d : Dec P) (x : Launched) → ite d (some editing) none ≡ some x → editing ≡ x
is_editing (yes p) x e = ap (λ o. value_or o editing) e
is_editing (no n) x e = absurd (ground arith)

editing-IsFresh : (b : ℕ) → browsing.bridge ≡ some b → IsFresh b (enter_launched editing nothing)
unfolding enter_launched lookup insert Text-discrete ℕ_discrete
editing-IsFresh b opened = record {
  open_yet = λ m. m;
  untracked = λ id x e held.
      let bridge : some 5 ≡ x.bridge =
        ap (λ (l : Launched). l.bridge) (is_editing (Text-discrete id (codes "e")) x e) in
      let same_bridge : some 5 ≡ some 6 = bridge ∙ held ∙ sym opened in ground arith;
}

both-IsSound : IsSound both
both-IsSound = subst IsSound entered_both (
    enter_launched-IsSound browsing (enter_launched editing nothing) editing-IsSound
      editing-IsFresh)

browsing-IsCopy : IsCopy browsing both
unfolding lookup Text-discrete ℕ_discrete
browsing-IsCopy current e h = sym (ap (λ o. value_or o browsing) e)

removed_one :
    remove_launched browsing both ≡ record { launched = (codes "e", editing) ∷ []; closed = 6 ∷ [] }
unfolding remove_launched lookup erase Text-discrete ℕ_discrete
removed_one = refl

remove_launched-IsSound_example : IsSound (remove_launched browsing both)
remove_launched-IsSound_example = remove_launched-IsSound browsing both both-IsSound browsing-IsCopy

abbrev open_editor : Apps
open_editor = record { launched = (codes "e", editing) ∷ []; closed = [] }

abbrev table : Dict Text Launched
table = (codes "e", editing) ∷ (codes "g", playing) ∷ []

abbrev code_only : Dict Text Launched
code_only = (codes "e", editing) ∷ []

kills_both :
    shutdown names no_pids table (code_only ∷ []) code_only
    ≡ record { force = false; pid = 20 } ∷ record { force = true; pid = 10 } ∷ []
unfolding shutdown root_pids is_vscode exe_name base_name Text-discrete ℕ_discrete
kills_both = refl

shutdown-forces_vscode_example :
    In (record { force = true; pid = 10 }) (shutdown names no_pids table (code_only ∷ []) code_only)
unfolding is_vscode exe_name base_name Text-discrete ℕ_discrete root_pids
shutdown-forces_vscode_example =
    shutdown-forces_vscode names no_pids table (code_only ∷ []) code_only playing editing 10
      (inr (inl refl)) refl refl (inl refl, tt) (inl refl) (inl refl)
