-- ===== src/Logs.antt =====
-- The requests for logs in netmonitor-gui/main.go: `handleLogTail` and `handleShortcutLog`.
pub mod Bounds
mod Tests
use proxy_for_windows_app.Base.{
  ℕ, ◌+◌, ◌-◌, ◌*◌, Bool, true, false, Option, none, some, List, [], ◌∷◌, ltb, if◌then◌else◌,
  length, drop, is_empty,
}
use proxy_for_windows_app.Base.Text.{Text, trim_space, split}
use proxy_for_windows_app.Base.Lines.{join}

-- What `os.ReadFile` gives.
pub data ReadFile : Type 0 where
  missing unreadable : ReadFile
  content : Text → ReadFile

-- A status without a body, or the body of a successful answer.
pub data Answer : Type 0 where
  status : ℕ → Answer
  body : Text → Answer

-- The last lines that `handleLogTail` shows.
abbrev pub max_lines : ℕ
max_lines = 80

unfoldable pub last_lines : List Text → List Text
last_lines lines =
    if ltb max_lines (length lines) then drop (length lines - max_lines) lines else lines

tail_of : ReadFile → Answer
unfolding last_lines
tail_of missing = status 204
tail_of unreadable = status 500
tail_of (content data_read) = body (join b'\n' (last_lines (split b'\n' (trim_space data_read))))

-- `handleLogTail`, with whether `appDataPath` gives a path.
unfoldable pub handle_log_tail : Bool → ReadFile → Answer
unfolding tail_of
handle_log_tail has_path file = if has_path then tail_of file else status 500

-- The bytes that `handleShortcutLog` shows.
abbrev pub max_bytes : ℕ
max_bytes = 64 * 1024

unfoldable pub last_bytes : Text → Text
last_bytes data_read =
    if ltb max_bytes (length data_read)
    then drop (length data_read - max_bytes) data_read
    else data_read

shown_of : ReadFile → Answer
unfolding last_bytes
shown_of missing = status 204
shown_of unreadable = status 500
shown_of (content data_read) = body (last_bytes data_read)

-- `handleShortcutLog`, with what `shortcutLogPath` gives for an ID and what the file at a path is.
unfoldable pub handle_shortcut_log : (Text → Option Text) → (Text → ReadFile) → Text → Answer
unfolding shown_of
handle_shortcut_log log_path read_file raw_id =
    if is_empty (trim_space raw_id) then status 400 else elim (log_path (trim_space raw_id)) [
      | none ↦ status 500
      | some path ↦ shown_of (read_file path)
    ]
