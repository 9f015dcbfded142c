-- ===== src/Bridge/Tests.antt =====
-- The bridge at concrete answers of the network.
use proxy_for_windows_app.Base.{◌⊎◌, ◌≡◌, ◌≢◌, refl, true, false, some, List, [], ◌∷◌, ◌++◌, arith}
use proxy_for_windows_app.Base.Text.{codes}
use proxy_for_windows_app.Base.Text.{Text}
use proxy_for_windows_app.Bridge.Copies.{
  shut, Tunnel, established_line, open_tunnel, close_write, end_up, end_down, close_both, Step,
  copy_up, copy_down, finish_up, finish_down, fail_up, fail_down, close,
}
use proxy_for_windows_app.Bridge.Run.{Run, start, more, Inv, Run-Inv, stuck-shut}
use proxy_for_windows_app.Bridge.{Answers, established, handle_connect, connect_headers}
use proxy_for_windows_app.Bridge.Streams.{handle_connect-loses_early}

-- One byte each way.
abbrev opening : Tunnel
opening = open_tunnel (10 ∷ []) (20 ∷ [])

abbrev sent_up : Tunnel
sent_up = record opening { client_in = []; to_upstream = 10 ∷ [] }

abbrev sent_down : Tunnel
sent_down = record sent_up { upstream_in = []; to_client = established_line ++ 20 ∷ [] }

abbrev ending : Tunnel
ending = end_down false (end_up false sent_down)

abbrev ended : Tunnel
ended = close_both ending

whole_run : Run 5 opening ended
unfolding open_tunnel end_up end_down close_both close_write
whole_run =
    more
      (more
        (more
          (more (more start (copy_up opening 10 [] refl refl)) (copy_down sent_up 20 [] refl refl))
          (finish_up sent_down refl refl))
        (finish_down (end_up false sent_down) refl refl))
      (close ending refl refl refl)

shut-stuck : {t u : Tunnel} → Step t u → t.client ≡ shut → t.up_done ≡ true → t.down_done ≡ true → ⊥
shut-stuck (copy_up t c rest going here) s up down = ground arith
shut-stuck (copy_down t c rest going here) s up down = ground arith
shut-stuck (finish_up t going empty) s up down = ground arith
shut-stuck (finish_down t going empty) s up down = ground arith
shut-stuck (fail_up t going) s up down = ground arith
shut-stuck (fail_down t going) s up down = ground arith
shut-stuck (close t a b c) s up down = ground arith

ended-stuck : (u : Tunnel) → ¬ Step ended u
unfolding open_tunnel end_up end_down close_both close_write
ended-stuck u step = shut-stuck step refl refl refl

Run-Inv_example : Inv (10 ∷ []) (20 ∷ []) ended
Run-Inv_example = Run-Inv (10 ∷ []) (20 ∷ []) whole_run

stuck-shut_example :
    (ended.client ≡ shut)
    × (ended.upstream ≡ shut)
    × ((ended.up_failed ≡ true) ⊎ (ended.to_upstream ≡ 10 ∷ []))
    × ((ended.down_failed ≡ true) ⊎ (ended.to_client ≡ established_line ++ 20 ∷ []))
stuck-shut_example = stuck-shut (10 ∷ []) (20 ∷ []) whole_run ended-stuck

-- A client that sends a byte with its request, and one later.
abbrev answers : Answers
answers = record {
  dials = true;
  writes = true;
  response = some (record { status = 200; behind = 20 ∷ [] });
  can_hijack = true;
  hijack = some (9 ∷ []);
  client_later = 10 ∷ [];
  upstream_later = [];
}

answers-opening : (handle_connect answers).0 ≡ established opening
unfolding handle_connect
answers-opening = refl

handle_connect-loses_early_example : ended.to_upstream ≢ (9 ∷ []) ++ 10 ∷ []
handle_connect-loses_early_example =
    handle_connect-loses_early answers opening ended 5 (9 ∷ []) refl (λ h. ground arith)
      answers-opening whole_run

abbrev joined : Text → Text → Text
joined user password = user ++ codes ":" ++ password

abbrev headers_example : List (Text × Text)
headers_example = connect_headers joined (some (codes "u", codes "p"))
