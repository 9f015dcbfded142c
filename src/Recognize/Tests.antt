-- ===== src/Recognize/Tests.antt =====
-- Requests to recognise a file, at concrete data.
use proxy_for_windows_app.Base.{
  ◌≡◌, refl, sym, ap, true, Option, some, [], ◌∷◌, ok, value_or, ℕ_discrete,
}
use proxy_for_windows_app.Base.Text.{Text, codes, Text-discrete, has_prefix, trim_space}
use proxy_for_windows_app.Base.Dict.{lookup, insert, erase}
use proxy_for_windows_app.Base.FilePath.{base_name, ext, trim_suffix}
use proxy_for_windows_app.Apps.{NameFunctions}
use proxy_for_windows_app.Recognize.{
  Folder, Upload, recognized, handle_recognize, handle_application_catalog,
}
use proxy_for_windows_app.Recognize.Temporary.{SameFiles, IsFresh, handle_recognize-SameFiles}

abbrev names : NameFunctions
names = record { to_lower = λ t. t; volume_len = λ t. 2 }

abbrev resolve : Text → Option Text
resolve path = some (codes "C:\\jre\\javaw.exe")

abbrev shortcut : Upload
shortcut = record {
  is_post = true;
  has_form = true;
  filename = some (codes "Game.lnk");
  temp_file = some (codes "t");
  copied = true;
}

abbrev temps : Folder
temps = (codes "u", true) ∷ []

-- The target says less than the name of the shortcut.
shortcut_named : handle_recognize names resolve shortcut temps ≡ (recognized (codes "Game"), temps)
unfolding handle_recognize Text-discrete ℕ_discrete ext base_name trim_suffix lookup insert erase
shortcut_named = refl

one_shortcut : handle_application_catalog (some (codes " {} ")) ≡ ok (codes "[{}]")
unfolding handle_application_catalog has_prefix trim_space
one_shortcut = refl

is_new : IsFresh (some (codes "t")) temps
unfolding lookup Text-discrete ℕ_discrete
is_new temp chosen = let e = ap (λ o. value_or o (codes "t")) chosen in rw (sym e) refl

handle_recognize-SameFiles_example :
    SameFiles temps (handle_recognize names resolve shortcut temps).1
handle_recognize-SameFiles_example = handle_recognize-SameFiles names resolve shortcut temps is_new
