-- ===== src/Recognize.antt =====
-- `handleRecognize`, `handleApplicationCatalog` and `defaultGateway` in netmonitor-gui/main.go. The folder of
-- temporary files is a map from the names to whether the file is open, since Windows does not remove an
-- open file. `resolve` is `resolveLNK`.
pub mod Temporary
mod Tests
use proxy_for_windows_app.Base.{
  ℕ, Bool, true, false, not, ◌||◌, Option, none, some, List, [], ◌∷◌, ◌++◌, Result, ok, err,
  if◌then◌else◌, is_empty,
}
use proxy_for_windows_app.Base.Text.{Text, codes, same, Text-discrete, trim_space, has_prefix}
use proxy_for_windows_app.Base.FilePath.{base_name, ext, trim_suffix}
use proxy_for_windows_app.Base.Dict.{Dict, lookup, insert, erase}
use proxy_for_windows_app.Apps.{NameFunctions}

abbrev pub Folder : Type 0
Folder = Dict Text Bool

-- `os.CreateTemp` with the name that it picks, `Close` and `os.Remove`.
unfoldable pub create_temp : Text → Folder → Folder
create_temp name d = insert Text-discrete name true d

unfoldable pub close : Text → Folder → Folder
close name d = insert Text-discrete name false d

unfoldable pub remove : Text → Folder → Folder
remove name d = elim (lookup Text-discrete name d) [
  | none ↦ d
  | some true ↦ d
  | some false ↦ erase Text-discrete name d
]

-- The answer: a status, or the name of a process.
pub data Recognition : Type 0 where
  refused : ℕ → Recognition
  recognized : Text → Recognition

-- A request: whether it is a POST, whether its form can be read, and the name of its file; the name of the
-- temporary file, if it can be created, and whether the file can be copied to it.
pub record Upload : Type 0 where
  pub is_post : Bool
  pub has_form : Bool
  pub filename : Option Text
  pub temp_file : Option Text
  pub copied : Bool

-- The test that a target says less than the name of its shortcut.
unfoldable pub is_generic : Text → Bool
is_generic name =
    is_empty name
    || same name (codes "javaw.exe")
    || same name (codes "java.exe")
    || same name (codes "cmd.exe")
    || same name (codes "python.exe")

module _ (names : NameFunctions) (resolve : Text → Option Text) where
  -- The name of the process of a shortcut, from its own name and its target.
  unfoldable pub shortcut_process : Text → Option Text → Text
  unfolding is_generic
  shortcut_process shortcut none = shortcut
  shortcut_process shortcut (some target) =
      if is_generic (names.to_lower (base_name names.volume_len target))
      then shortcut
      else base_name names.volume_len target

  -- The extension `.lnk`: `os.Remove` is deferred, and runs when the answer is given.
  unfoldable pub recognize_shortcut : Upload → Text → Folder → Recognition × Folder
  unfolding shortcut_process create_temp close remove
  recognize_shortcut upload filename temps = elim upload.temp_file [
    | none ↦ (refused 500, temps)
    | some temp ↦
        let closed = close temp (create_temp temp temps) in
        elim upload.copied [
          | false ↦ (refused 500, remove temp closed)
          | true ↦ (
            recognized (shortcut_process (trim_suffix filename (ext filename)) (resolve temp)),
            remove temp closed,
          )
        ]
  ]

  unfoldable pub recognize_file : Upload → Text → Folder → Recognition × Folder
  unfolding recognize_shortcut
  recognize_file upload filename temps =
      if same (names.to_lower (ext filename)) (codes ".exe")
      then (recognized filename, temps)
      else if same (names.to_lower (ext filename)) (codes ".lnk")
      then recognize_shortcut upload filename temps
      else (refused 400, temps)

  -- `handleRecognize`
  unfoldable pub handle_recognize : Upload → Folder → Recognition × Folder
  unfolding recognize_file
  handle_recognize upload temps =
      if not upload.is_post
      then (refused 405, temps)
      else if not upload.has_form
      then (refused 400, temps)
      else elim upload.filename [
        | none ↦ (refused 400, temps)
        | some filename ↦ recognize_file upload filename temps
      ]

in_brackets : Text → Text
in_brackets raw = if has_prefix raw (codes "[") then raw else codes "[" ++ (raw ++ codes "]")

-- `handleApplicationCatalog`, for the output of its script: a status, or the body.
unfoldable pub handle_application_catalog : Option Text → Result ℕ Text
unfolding in_brackets
handle_application_catalog none = err 500
handle_application_catalog (some out) =
    ok (in_brackets (if is_empty (trim_space out) then codes "[]" else trim_space out))

pub data GatewayError : Type 0 where
  query_failed not_found : GatewayError

-- `defaultGateway`, for the output of its script.
unfoldable pub default_gateway : Option Text → Result GatewayError Text
default_gateway none = err query_failed
default_gateway (some out) =
    if is_empty (trim_space out) then err not_found else ok (trim_space out)
