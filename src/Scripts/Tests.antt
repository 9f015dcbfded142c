-- ===== src/Scripts/Tests.antt =====
-- Scripts at concrete texts.
use proxy_for_windows_app.Base.{ℕ, ◌≡◌, refl, ap, Option, none, some, [], ◌∷◌, ok}
use proxy_for_windows_app.Base.Text.{Text, codes, trim_space, is_space}
use proxy_for_windows_app.Base.Digits.{read_on, read_on-decimal}
use proxy_for_windows_app.Scripts.{
  double_quotes, handle_application_icon, refused, pids_of, fields, fields_on,
}
use proxy_for_windows_app.Scripts.Pids.{printed, pids_of-printed}

test_quotes : double_quotes (codes "a'b") ≡ codes "a''b"
unfolding double_quotes
test_quotes = refl

test_fields : fields (codes " 12\r\n7 \n") ≡ codes "12" ∷ codes "7" ∷ []
unfolding fields fields_on is_space
test_fields = refl

test_no_path : handle_application_icon (λ script. none) (λ text. none) (codes " ") ≡ refused 400
unfolding handle_application_icon trim_space is_space
test_no_path = refl

abbrev scan : Text → Option ℕ
scan text = some (read_on 0 text)

pids_of-printed_example : pids_of scan (some (printed (12 ∷ 7 ∷ []))) ≡ ok (12 ∷ 7 ∷ [])
pids_of-printed_example =
    pids_of-printed scan (12 ∷ 7 ∷ [])
      (ap some (read_on-decimal 12), (ap some (read_on-decimal 7), tt))

-- The quote U+2019, and a command behind it.
abbrev command : Text
command = codes ";calc"
