-- ===== src/Catalog.antt =====
-- The requests of netmonitor-gui/main.go on the configuration file: `loadProxyConfig`, `saveProxyConfig`,
-- `handleProxyConfig`, `handleApplications`, and `handleClearApplicationCache`. The file holds the value
-- that `encoding/json` writes and reads. The calls of `normalizeProxyConfig` in a request are numbered, and
-- `ids` gives the answers of `uuid.NewString` in each.
pub mod Stored
pub mod Choose
mod Tests
use proxy_for_windows_app.Base.{
  ℕ, Bool, true, false, not, ◌||◌, Option, none, some, List, [], ◌∷◌, ◌++◌, Result, ok, err,
  if◌then◌else◌, is_empty, is_some, keep,
}
use proxy_for_windows_app.Base.Text.{Text, same, trim_space}
use proxy_for_windows_app.Address.{NetFunctions}
use proxy_for_windows_app.Config.{Application, ProxyConfig, normalize_proxy_config}
use proxy_for_windows_app.Apps.{NameFunctions, Kill, exe_name, is_chromium_browser, is_vscode}
use proxy_for_windows_app.Launch.{Host, LaunchError, chromium_profile_dir}
use proxy_for_windows_app.Launch.Processes.{ProfileAnswers, close_profile}
use proxy_for_windows_app.Backup.{CacheHost, CacheError, clear_cache}

pub data Method : Type 0 where
  get post delete other_method : Method

pub data Refusal : Type 0 where
  bad_body write_refused wrong_method bad_application server_error : Refusal

-- What the configuration file holds, if it can be read: a configuration, or no JSON of one.
abbrev pub File : Type 0
File = Option (Result (Unit {0}) ProxyConfig)

-- Whether `os.WriteFile` succeeds; if not, it may have cut the file, and what the file holds then is given.
pub data Writing : Type 0 where
  written : Writing
  torn : File → Writing

-- `ProxyConfig{}`
abbrev pub no_config : ProxyConfig
no_config = record { proxy_url = []; device = []; processes = []; proxies = []; applications = [] }

module _ (net : NetFunctions) (volume_len : Text → ℕ) (ids : ℕ → ℕ → Text) where
  abbrev pub normalize : ℕ → ProxyConfig → ProxyConfig
  normalize n config = normalize_proxy_config net volume_len (ids n) config

  -- `loadProxyConfig`
  unfoldable pub load_proxy_config : ℕ → File → ProxyConfig
  load_proxy_config n none = normalize n no_config
  load_proxy_config n (some (err _)) = no_config
  load_proxy_config n (some (ok config)) = normalize n config

  -- `saveProxyConfig`, and whether it succeeds.
  unfoldable pub save_proxy_config : Writing → ℕ → ProxyConfig → Bool × File
  save_proxy_config written n config = (true, some (ok (normalize n config)))
  save_proxy_config (torn left) n config = (false, left)

  -- A save, and the reply to the request.
  pub replied : ProxyConfig → Bool × File → Result Refusal ProxyConfig × File
  replied config (false, file) = (err write_refused, file)
  replied config (true, file) = (ok config, file)

  post_config : Writing → Option ProxyConfig → File → Result Refusal ProxyConfig × File
  unfolding replied save_proxy_config
  post_config saving none file = (err bad_body, file)
  post_config saving (some config) file =
      replied (normalize 0 config) (save_proxy_config saving 1 (normalize 0 config))

  -- `handleProxyConfig`
  unfoldable pub handle_config :
      Writing → Method → Option ProxyConfig → File → Result Refusal ProxyConfig × File
  unfolding post_config load_proxy_config
  handle_config saving get body file = (ok (load_proxy_config 0 file), file)
  handle_config saving post body file = post_config saving body file
  handle_config saving delete body file = (err wrong_method, file)
  handle_config saving other_method body file = (err wrong_method, file)

  -- The reply to a request that changes the applications.
  unfoldable pub changed : Writing → ProxyConfig → Result Refusal ProxyConfig × File
  unfolding replied save_proxy_config
  changed saving config = replied (normalize 2 config) (save_proxy_config saving 1 config)

  -- The POST case of `handleApplications`; `new_id` is the answer of its own `uuid.NewString`.
  add_application : Writing → Text → Option Application → File → Result Refusal ProxyConfig × File
  unfolding changed load_proxy_config
  add_application saving new_id none file = (err bad_body, file)
  add_application saving new_id (some app) file =
      let config = load_proxy_config 0 file in
      let named = if is_empty (trim_space app.id) then record app { id = new_id } else app in
      changed saving (record config { applications = config.applications ++ named ∷ [] })

  -- The DELETE case of `handleApplications`.
  remove_application : Writing → Option Application → File → Result Refusal ProxyConfig × File
  unfolding changed load_proxy_config
  remove_application saving none file = (err bad_body, file)
  remove_application saving (some app) file =
      let config = load_proxy_config 0 file in
      changed saving (record config {
        applications = keep (λ current. not (same current.id app.id)) config.applications;
      })

  -- `handleApplications`; the reply to GET is the list of applications of the configuration here.
  unfoldable pub handle_applications :
      Writing → Text → Method → Option Application → File → Result Refusal ProxyConfig × File
  unfolding add_application remove_application load_proxy_config
  handle_applications saving new_id get body file = (ok (load_proxy_config 0 file), file)
  handle_applications saving new_id post body file = add_application saving new_id body file
  handle_applications saving new_id delete body file = remove_application saving body file
  handle_applications saving new_id other_method body file = (err wrong_method, file)

-- What a request to clear a cache has done: the reply, the calls of taskkill, the folders removed.
abbrev pub Clearing : Type 0
Clearing = Option Refusal × List Kill × List Text

module _ (host : Host) (cache : CacheHost) (names : NameFunctions) where
  cache_cleared : List Kill → Option CacheError × List Text → Clearing
  cache_cleared kills (none, removed) = (none, kills, removed)
  cache_cleared kills (some _, removed) = (some server_error, kills, removed)

  profile_closed : Text → Option LaunchError × List Kill → Clearing
  unfolding cache_cleared
  profile_closed profile_dir (some _, kills) = (some server_error, kills, [])
  profile_closed profile_dir (none, kills) = cache_cleared kills (clear_cache cache profile_dir)

  clear_profile_at : ProfileAnswers → Option Text → Clearing
  unfolding profile_closed cache_cleared
  clear_profile_at answers none = (some server_error, [], [])
  clear_profile_at answers (some profile_dir) = elim answers.before [
    | err _ ↦ (some server_error, [], [])
    | ok [] ↦ cache_cleared [] (clear_cache cache profile_dir)
    | ok (pid ∷ pids) ↦
        profile_closed profile_dir
          (close_profile answers.force_ok (pid ∷ pids) answers.polls answers.last)
  ]

  -- `handleClearApplicationCache`
  unfoldable pub handle_clear_cache : Method → Option Application → ProfileAnswers → Clearing
  unfolding clear_profile_at
  handle_clear_cache get body answers = (some wrong_method, [], [])
  handle_clear_cache delete body answers = (some wrong_method, [], [])
  handle_clear_cache other_method body answers = (some wrong_method, [], [])
  handle_clear_cache post none answers = (some bad_body, [], [])
  handle_clear_cache post (some app) answers =
      let name = exe_name names app.path in
      if is_empty (trim_space app.id)
      then (some bad_application, [], [])
      else if not (is_chromium_browser name) || is_vscode name
      then (some bad_application, [], [])
      else clear_profile_at answers (chromium_profile_dir host app)
