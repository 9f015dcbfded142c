-- ===== src/Catalog/Stored.antt =====
-- What the requests leave in the configuration file.
use proxy_for_windows_app.Base.{
  ℕ, ◌≡◌, refl, false, Option, none, some, Result, ok, err, All, is_empty,
}
use proxy_for_windows_app.Base.Text.{Text}
use proxy_for_windows_app.Address.{NetFunctions}
use proxy_for_windows_app.Config.{ProxyConfig}
use proxy_for_windows_app.Config.Applications.{IsBound, normalize_proxy_config-IsBound}
use proxy_for_windows_app.Catalog.{
  post, Refusal, bad_body, write_refused, wrong_method, bad_application, server_error, File,
  Writing, written, torn, save_proxy_config, replied, post_config, handle_config,
}

-- The file holds a configuration with a device, whose applications have process names and existing proxies.
abbrev pub IsStored : File → Type 0
IsStored none = ⊥
IsStored (some (err _)) = ⊥
IsStored (some (ok c)) = (is_empty c.device ≡ false) × All (IsBound c.proxies) c.applications

-- A request was refused and the file is as before; or the file could not be written and holds what the
-- failing write left; or the request was granted and the file is in order.
unfoldable pub RefusedOrStored : Writing → File → Result Refusal ProxyConfig × File → Type 0
RefusedOrStored saving before (err write_refused, file) = saving ≡ torn file
RefusedOrStored saving before (err bad_body, file) = file ≡ before
RefusedOrStored saving before (err wrong_method, file) = file ≡ before
RefusedOrStored saving before (err bad_application, file) = file ≡ before
RefusedOrStored saving before (err server_error, file) = file ≡ before
RefusedOrStored saving before (ok _, file) = IsStored file

module _ (net : NetFunctions) (volume_len : Text → ℕ) (ids : ℕ → ℕ → Text) where
  pub replied-RefusedOrStored :
      (saving : Writing) (n : ℕ) (reply config : ProxyConfig) (file : File)
      → RefusedOrStored saving file
          (replied net volume_len ids reply (save_proxy_config net volume_len ids saving n config))
  unfolding replied save_proxy_config RefusedOrStored
  replied-RefusedOrStored (torn left) n reply config file = refl
  replied-RefusedOrStored written n reply config file =
      let (device, _, _, bound) = normalize_proxy_config-IsBound net volume_len (ids n) config in
      (device, bound)

  -- A request to change the configuration is refused and leaves the file as it is, or fails to
  -- write the file and leaves what the failing write leaves, or is granted and leaves a configuration with a
  -- device, whose applications have process names and existing proxies.
  pub handle_config-RefusedOrStored :
      (saving : Writing) (body : Option ProxyConfig) (file : File)
      → RefusedOrStored saving file (handle_config net volume_len ids saving post body file)
  unfolding handle_config post_config RefusedOrStored
  handle_config-RefusedOrStored saving none file = refl
  handle_config-RefusedOrStored saving (some config) file =
      replied-RefusedOrStored saving 1 _ _ file
