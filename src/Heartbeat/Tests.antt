-- ===== src/Heartbeat/Tests.antt =====
-- The watch at concrete times.
use proxy_for_windows_app.Base.{
  ℕ, ◌+◌, ◌<◌, ◌≡◌, refl, true, false, List, [], ◌∷◌, none, some, arith,
}
use proxy_for_windows_app.Heartbeat.{
  Heartbeat, Moment, beat, busy_start, busy_end, tick, receive_beat, begin_busy, end_busy, is_lost,
  watch, pass, after,
}
use proxy_for_windows_app.Heartbeat.Exit.{at_start, open_operations, IsOrdered, IsSign, watch-exit}
use proxy_for_windows_app.Base.{In, inl, inr, ◌++◌}
use proxy_for_windows_app.Heartbeat.Liveness.{ticks, watch-ends}

abbrev history : List (ℕ × Moment)
history =
    (6000, tick false)
    ∷ (5000, busy_end)
    ∷ (4000, beat)
    ∷ (3000, busy_start)
    ∷ (3000, tick false)
    ∷ []

abbrev state : Heartbeat
state = record { ui_seen = true; last_heartbeat = 5000; busy = 0 }

reached : after history at_start ≡ some state
unfolding after pass watch is_lost receive_beat begin_busy end_busy
reached = refl

exits : watch 17001 false state ≡ none
unfolding watch is_lost
exits = refl

waits : watch 17000 false state ≡ some state
unfolding watch is_lost
waits = refl

ordered : IsOrdered 17001 history
ordered = (omega arith, (omega arith, (omega arith, (omega arith, (omega arith, tt)))))

watch-exit_example :
    (false ≡ false)
    × (open_operations history ≡ 0)
    × ((t : ℕ) (m : Moment) → In (t, m) history → IsSign m → t + 12000 < 17001)
watch-exit_example = watch-exit 17001 false history state ordered reached exits

beat-In : In (4000, beat) history
beat-In = inr (inr (inl refl))

IsOrdered-history : IsOrdered 6000 history
IsOrdered-history = (omega arith, (omega arith, (omega arith, (omega arith, (omega arith, tt)))))

watch-ends_example : after ((18001, tick false) ∷ (ticks (9000 ∷ []) ++ history)) at_start ≡ none
unfolding open_operations
watch-ends_example =
    watch-ends history state 6000 4000 18001 (9000 ∷ []) IsOrdered-history reached beat-In refl
      (omega arith)
