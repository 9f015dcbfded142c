-- ===== src/Heartbeat/Liveness.antt =====
-- That the watch ends a program whose user interface has gone.
use mathlib.Core.Path.{subst}
use proxy_for_windows_app.Base.{
  sym, ℕ, ◌+◌, ◌<◌, ◌≡◌, refl, ap, ◌⊎◌, inl, inr, true, false, List, [], ◌∷◌, ◌++◌, none, some,
  arith, In, map,
}
use proxy_for_windows_app.Heartbeat.{
  Heartbeat, Moment, beat, busy_start, busy_end, tick, begin_busy, end_busy, receive_beat, is_lost,
  watch, pass, pass_on, after,
}
use proxy_for_windows_app.Heartbeat.Exit.{
  at_start, open_operations, IsOrdered, pass_on-some, busy_count, IsSign-bound,
}

pass-seen :
    (t : ℕ) (m : Moment) (h' h : Heartbeat)
    → pass t m h' ≡ some h
    → h'.ui_seen ≡ true
    → h.ui_seen ≡ true
unfolding pass watch receive_beat begin_busy end_busy
pass-seen t beat h' h e seen = ground arith
pass-seen t busy_start h' h e seen = ground arith
pass-seen t busy_end h' h e seen = ground arith
pass-seen t (tick launched) h' h e seen = ground arith

beat-seen : (t : ℕ) (h' h : Heartbeat) → pass t beat h' ≡ some h → h.ui_seen ≡ true
unfolding pass receive_beat
beat-seen t h' h e = ground arith

-- A heartbeat was received.
seen_after :
    (t : ℕ) (history : List (ℕ × Moment)) {h : Heartbeat}
    → In (t, beat) history
    → after history at_start ≡ some h
    → h.ui_seen ≡ true
unfolding after
seen_after t [] member e = absurd member
seen_after t ((u, m) ∷ earlier) {h} member e =
    let (h', before, passed) = pass_on-some u m (after earlier at_start) e in
    elim member [
      | inl here ↦
          let same_moment : beat ≡ m = ap (λ (p : ℕ × Moment). p.1) here in
          beat-seen u h' h (subst (λ n. pass u n h' ≡ some h) (sym same_moment) passed)
      | inr there ↦ pass-seen u m h' h passed (seen_after t earlier there before)
    ]

-- Ticks while no launched application is tracked.
unfoldable pub ticks : List ℕ → List (ℕ × Moment)
ticks times = map (λ t. (t, tick false)) times

idle : (t : ℕ) (h : Heartbeat) → (watch t false h ≡ none) ⊎ (watch t false h ≡ some h)
unfolding watch
idle t h = ground arith

module _ (history : List (ℕ × Moment)) (h : Heartbeat)
    (reached : after history at_start ≡ some h) where
  idle_ticks :
      (times : List ℕ)
      → (after (ticks times ++ history) at_start ≡ none)
        ⊎ (after (ticks times ++ history) at_start ≡ some h)
  unfolding after ticks pass_on pass
  idle_ticks [] = inr reached
  idle_ticks (t ∷ times) = elim (idle_ticks times) [
    | inl gone ↦ inl (rw gone refl)
    | inr here ↦ elim (idle t h) [ inl ends ↦ inl (rw here ends) | inr stays ↦ inr (rw here stays) ]
  ]

-- Where a heartbeat was received once, every busy operation has ended and no launched application is
-- tracked from then on, the program has ended at the first tick of the watch more than 12 seconds after
-- the last moment, whatever ticks came before.
pub watch-ends :
    (history : List (ℕ × Moment)) (h : Heartbeat) (last seen now : ℕ) (times : List ℕ)
    → IsOrdered last history
    → after history at_start ≡ some h
    → In (seen, beat) history
    → open_operations history ≡ 0
    → last + 12000 < now
    → after ((now, tick false) ∷ (ticks times ++ history)) at_start ≡ none
unfolding after pass_on pass watch is_lost
watch-ends history h last seen now times ordered reached member free late =
    let (bound, _) = IsSign-bound last history ordered reached in
    let count = busy_count history reached in
    let was_seen = seen_after seen history member reached in
    elim (idle_ticks history h reached times) [
      | inl gone ↦ rw gone refl
      | inr here ↦ rw here (ground arith)
    ]
