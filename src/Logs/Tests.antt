-- ===== src/Logs/Tests.antt =====
-- Logs at concrete contents.
use proxy_for_windows_app.Base.{◌-◌, ◌≤◌, ◌≡◌, refl, true, Option, some, ◌++◌, length, drop}
use proxy_for_windows_app.Base.Text.{Text, codes, trim_space, split, on_head, is_space}
use proxy_for_windows_app.Base.Lines.{join}
use proxy_for_windows_app.Logs.{
  ReadFile, missing, content, body, status, last_lines, last_bytes, handle_log_tail,
  handle_shortcut_log,
}
use proxy_for_windows_app.Logs.Bounds.{handle_log_tail-lines}

test_tail : handle_log_tail true (content (codes "a\nb\n")) ≡ body (codes "a\nb")
unfolding handle_log_tail last_lines join split on_head trim_space is_space
test_tail = refl

test_missing : handle_log_tail true missing ≡ status 204
unfolding handle_log_tail
test_missing = refl

handle_log_tail-lines_example :
    let lines = split b'\n' (trim_space (codes "a\nb\n")) in
    (shown : Text) × (handle_log_tail true (content (codes "a\nb\n")) ≡ body shown)
    × ((front : Text) × (trim_space (codes "a\nb\n") ≡ front ++ shown))
    × (split b'\n' shown ≡ drop (length lines - 80) lines)
    × (length (split b'\n' shown) ≤ 80)
handle_log_tail-lines_example = handle_log_tail-lines (codes "a\nb\n")

abbrev log_path : Text → Option Text
log_path id = some (codes "shortcut-logs\\" ++ id ++ codes ".log")

abbrev read_file : Text → ReadFile
read_file path = content (codes "started")

shows : handle_shortcut_log log_path read_file (codes " x ") ≡ body (codes "started")
unfolding handle_shortcut_log last_bytes trim_space is_space
shows = refl
