-- ===== src/Catalog/Choose.antt =====
-- `handleChooseExecutable` in netmonitor-gui/main.go: an application of a file that the user picks. `path`
-- is what `chooseExecutable` gives, and `new_id` the answer of `uuid.NewString`.
use proxy_for_windows_app.Base.{
  ℕ, refl, Bool, true, false, not, [], ◌∷◌, ◌++◌, Result, ok, err, if◌then◌else◌,
}
use proxy_for_windows_app.Base.Text.{Text}
use proxy_for_windows_app.Base.FilePath.{base_name, ext, trim_suffix}
use proxy_for_windows_app.Address.{NetFunctions}
use proxy_for_windows_app.Config.{Application, ProxyConfig}
use proxy_for_windows_app.Dialogs.{DialogError}
use proxy_for_windows_app.Catalog.{
  Refusal, bad_body, wrong_method, File, Writing, load_proxy_config, changed,
}
use proxy_for_windows_app.Catalog.Stored.{RefusedOrStored, replied-RefusedOrStored}

module _ (net : NetFunctions) (volume_len : Text → ℕ) (ids : ℕ → ℕ → Text) where
  -- The variable `app`.
  unfoldable pub chosen_application : Text → Text → Application
  chosen_application new_id path = record {
    id = new_id;
    name = trim_suffix (base_name volume_len path) (ext path);
    path = path;
    process_name = base_name volume_len path;
    proxy_id = [];
    proxy = [];
  }

  choose_decided :
      Writing → Text → Result DialogError Text → File → Result Refusal ProxyConfig × File
  unfolding chosen_application
  choose_decided saving new_id (err _) file = (err bad_body, file)
  choose_decided saving new_id (ok path) file =
      let config = load_proxy_config net volume_len ids 0 file in
      changed net volume_len ids saving (record config {
        applications = config.applications ++ chosen_application new_id path ∷ [];
      })

  -- `handleChooseExecutable`; a dialog without a choice is answered by 400, as a bad body is.
  unfoldable pub handle_choose_executable :
      Writing → Text → Bool → Result DialogError Text → File → Result Refusal ProxyConfig × File
  unfolding choose_decided
  handle_choose_executable saving new_id is_post path file =
      if not is_post then (err wrong_method, file) else choose_decided saving new_id path file

  -- A request to choose an application is refused and leaves the file as it is, or fails to write the file
  -- and leaves what the failing write leaves, or is granted and leaves a configuration with a device, whose
  -- applications have process names and existing proxies.
  pub handle_choose_executable-RefusedOrStored :
      (saving : Writing) (new_id : Text) (is_post : Bool) (path : Result DialogError Text)
      (file : File)
      → RefusedOrStored saving file (handle_choose_executable saving new_id is_post path file)
  unfolding handle_choose_executable choose_decided changed RefusedOrStored
  handle_choose_executable-RefusedOrStored saving new_id false path file = refl
  handle_choose_executable-RefusedOrStored saving new_id true (err _) file = refl
  handle_choose_executable-RefusedOrStored saving new_id true (ok path) file =
      replied-RefusedOrStored net volume_len ids saving 1 _ _ file
