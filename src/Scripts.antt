-- ===== src/Scripts.antt =====
-- The scripts of PowerShell that netmonitor-gui/main.go runs with a text of the user in them, and the
-- reading of what they print: `handleApplicationIcon`, `resolveLNK`, `processPIDs` and `chromiumPIDs`. `scan`
-- is `fmt.Sscan` into an `int`.
pub mod Quoting
pub mod Pids
mod Tests
use proxy_for_windows_app.Base.{
  ℕ, Bool, true, false, not, Option, none, some, List, [], ◌∷◌, ◌++◌, ◌==◌, if◌then◌else◌, is_empty,
  Result, ok, err,
}
use proxy_for_windows_app.Base.Text.{Text, codes, is_space, trim_space}

-- `strings.ReplaceAll(s, "'", "''")`
unfoldable pub double_quotes : Text → Text
double_quotes [] = []
double_quotes (c ∷ s) =
    let rest = double_quotes s in if c == b'\'' then b'\'' ∷ b'\'' ∷ rest else c ∷ rest

-- The script of `resolveLNK`.
unfoldable pub lnk_script : Text → Text
unfolding double_quotes
lnk_script path =
    codes "$sh = New-Object -ComObject WScript.Shell; $s = $sh.CreateShortcut('"
    ++ (double_quotes path ++ codes "'); $s.TargetPath")

-- The script of `handleApplicationIcon`, before and behind the path.
abbrev pub icon_begin : Text
icon_begin =
    codes
      "\nAdd-Type -AssemblyName System.Drawing\n$icon=[System.Drawing.Icon]::ExtractAssociatedIcon('"

abbrev pub icon_end : Text
icon_end =
    codes
      ")\nif($null -eq $icon){ exit 1 }\n$bmp=$icon.ToBitmap()\n$ms=New-Object System.IO.MemoryStream\n$bmp.Save($ms,[System.Drawing.Imaging.ImageFormat]::Png)\n[Convert]::ToBase64String($ms.ToArray())\n"

unfoldable pub icon_script : Text → Text
unfolding double_quotes
icon_script path = icon_begin ++ (double_quotes path ++ b'\'' ∷ icon_end)

-- The answer to a request for an icon: a status, or the picture.
pub data Icon : Type 0 where
  refused : ℕ → Icon
  picture : List ℕ → Icon

decoded_icon : Option (List ℕ) → Icon
decoded_icon none = refused 500
decoded_icon (some bytes) = picture bytes

printed_icon : (Text → Option (List ℕ)) → Option Text → Icon
unfolding decoded_icon
printed_icon base64 none = refused 404
printed_icon base64 (some out) = decoded_icon (base64 (trim_space out))

-- `handleApplicationIcon`; `run` gives the output of a script, if it succeeds.
unfoldable pub handle_application_icon :
    (Text → Option Text) → (Text → Option (List ℕ)) → Text → Icon
unfolding printed_icon icon_script
handle_application_icon run base64 path =
    if is_empty (trim_space path)
    then refused 400
    else printed_icon base64 (run (icon_script (trim_space path)))

-- The script of `chromiumPIDs`, for the name of the image and the folder of the profile.
unfoldable pub chromium_script : Text → Text → Text
unfolding double_quotes
chromium_script name profile_dir =
    codes "Get-CimInstance Win32_Process -Filter \"Name='"
    ++ (name
        ++ (codes "'\" | Where-Object { $_.CommandLine -like '*"
            ++ (double_quotes profile_dir
                ++ codes "*' } | Select-Object -ExpandProperty ProcessId")))

-- The script of `processPIDs`.
unfoldable pub process_script : Text → Text
unfolding double_quotes
process_script name =
    codes "Get-CimInstance Win32_Process -Filter \"Name='"
    ++ (double_quotes name ++ codes "'\" | Select-Object -ExpandProperty ProcessId")

-- `strings.Fields`; the first argument is the field that is being read.
unfoldable pub fields_on : Text → Text → List Text
fields_on field [] = if is_empty field then [] else field ∷ []
fields_on field (c ∷ s) =
    let inside = fields_on (field ++ c ∷ []) s in
    let outside = fields_on [] s in
    if is_space c then (if is_empty field then outside else field ∷ outside) else inside

unfoldable pub fields : Text → List Text
unfolding fields_on
fields s = fields_on [] s

-- The loop over the fields of the output.
unfoldable pub scanned : (Text → Option ℕ) → List Text → List ℕ
scanned scan [] = []
scanned scan (line ∷ lines) =
    let rest = scanned scan lines in elim (scan line) [ none ↦ rest | some pid ↦ pid ∷ rest ]

-- `processPIDs` and `chromiumPIDs`, given the output of the script; an error is a script that failed.
unfoldable pub pids_of : (Text → Option ℕ) → Option Text → Result (Unit {0}) (List ℕ)
unfolding scanned fields
pids_of scan none = err tt
pids_of scan (some out) = ok (scanned scan (fields out))

-- What `resolveLNK` makes of the output of its script.
unfoldable pub resolved_target : Option Text → Option Text
resolved_target none = none
resolved_target (some out) = if is_empty (trim_space out) then none else some (trim_space out)
