-- ===== src/Heartbeat/Exit.antt =====
-- When the watch ends the program, and when it does not.
use mathlib.Core.Path.{subst}
use proxy_for_windows_app.Base.{
  ℕ, ◌+◌, ◌-◌, ◌≤◌, ◌<◌, ◌≡◌, refl, ap, ◌⊎◌, inl, inr, Bool, false, List, [], ◌∷◌, Option, none,
  some, arith, In,
}
use proxy_for_windows_app.Heartbeat.{
  Heartbeat, Moment, beat, busy_start, busy_end, tick, begin_busy, end_busy, receive_beat, is_lost,
  watch, pass, pass_on, after,
}

-- The times of a history do not decrease, and none is after `now`.
abbrev pub IsOrdered : ℕ → List (ℕ × Moment) → Type 0
IsOrdered now [] = Unit
IsOrdered now ((t, m) ∷ earlier) = (t ≤ now) × IsOrdered t earlier

-- Busy operations that were started and have not ended.
unfoldable pub open_operations : List (ℕ × Moment) → ℕ
open_operations [] = 0
open_operations ((t, beat) ∷ earlier) = open_operations earlier
open_operations ((t, busy_start) ∷ earlier) = open_operations earlier + 1
open_operations ((t, busy_end) ∷ earlier) = open_operations earlier - 1
open_operations ((t, tick launched) ∷ earlier) = open_operations earlier

-- A sign of life: a heartbeat, or the end of a busy operation.
abbrev pub IsSign : Moment → Type 0
IsSign m = (m ≡ beat) ⊎ (m ≡ busy_end)

abbrev pub at_start : Heartbeat
at_start = record { ui_seen = false; last_heartbeat = 0; busy = 0 }

pub pass_on-some :
    (t : ℕ) (m : Moment) (o : Option Heartbeat) {h : Heartbeat}
    → pass_on t m o ≡ some h
    → (h' : Heartbeat) × (o ≡ some h') × (pass t m h' ≡ some h)
unfolding pass_on
pass_on-some t m none e = absurd (ground arith)
pass_on-some t m (some h') e = (h', refl, e)

pass-busy :
    (t : ℕ) (m : Moment) (h' h : Heartbeat) (earlier : List (ℕ × Moment))
    → pass t m h' ≡ some h
    → h'.busy ≡ open_operations earlier
    → h.busy ≡ open_operations ((t, m) ∷ earlier)
unfolding pass watch receive_beat begin_busy end_busy open_operations
pass-busy t beat h' h earlier e same = ground arith
pass-busy t busy_start h' h earlier e same = ground arith
pass-busy t busy_end h' h earlier e same = ground arith
pass-busy t (tick launched) h' h earlier e same = ground arith

-- What a moment does to the time of the last sign of life.
pass-last :
    (t : ℕ) (m : Moment) (h' h : Heartbeat)
    → pass t m h' ≡ some h
    → h'.last_heartbeat ≤ t
    → (h'.last_heartbeat ≤ h.last_heartbeat)
      × (h.last_heartbeat ≤ t)
      × (IsSign m → h.last_heartbeat ≡ t)
unfolding pass watch receive_beat begin_busy end_busy
pass-last t beat h' h e bound = (ground arith, ground arith, λ sign. ground arith)
pass-last t busy_start h' h e bound = (ground arith, ground arith, λ sign. ground arith)
pass-last t busy_end h' h e bound = (ground arith, ground arith, λ sign. ground arith)
pass-last t (tick launched) h' h e bound = (ground arith, ground arith, λ sign. ground arith)

pub busy_count :
    (history : List (ℕ × Moment)) {h : Heartbeat}
    → after history at_start ≡ some h
    → h.busy ≡ open_operations history
unfolding after open_operations
busy_count [] e = ground arith
busy_count ((t, m) ∷ earlier) {h} e =
    let (h', before, passed) = pass_on-some t m (after earlier at_start) e in
    pass-busy t m h' h earlier passed (busy_count earlier before)

pub IsSign-bound :
    (now : ℕ) (history : List (ℕ × Moment)) {h : Heartbeat}
    → IsOrdered now history
    → after history at_start ≡ some h
    → (h.last_heartbeat ≤ now)
      × ((t : ℕ) (m : Moment) → In (t, m) history → IsSign m → t ≤ h.last_heartbeat)
unfolding after
IsSign-bound now [] ordered e = (ground arith, λ t m absent sign. absurd absent)
IsSign-bound now ((t, m) ∷ earlier) {h} (in_time, ordered) e =
    let (h', before, passed) = pass_on-some t m (after earlier at_start) e in
    let (bound, signs) = IsSign-bound t earlier ordered before in
    let (grows, in_bound, sign_now) = pass-last t m h' h passed bound in
    (
      omega arith,
      λ u n member sign. elim member [
        | inl here ↦
            let same_time : u ≡ t = ap (λ (p : ℕ × Moment). p.0) here in
            let same_moment : n ≡ m = ap (λ (p : ℕ × Moment). p.1) here in
            let last = sign_now (subst IsSign same_moment sign) in omega arith
        | inr there ↦ let older = signs u n there sign in omega arith
      ],
    )

-- The watch ends the program only if no launched application is tracked, no busy operation is open, and
-- every heartbeat and every end of a busy operation lies more than 12 seconds back.
pub watch-exit :
    (now : ℕ) (launched : Bool) (history : List (ℕ × Moment)) (h : Heartbeat)
    → IsOrdered now history
    → after history at_start ≡ some h
    → watch now launched h ≡ none
    → (launched ≡ false)
      × (open_operations history ≡ 0)
      × ((t : ℕ) (m : Moment) → In (t, m) history → IsSign m → t + 12000 < now)
unfolding watch is_lost
watch-exit now launched history h ordered e exits =
    let count = busy_count history e in
    let (bound, signs) = IsSign-bound now history ordered e in
    (ground arith, ground arith, λ t m member sign. let old = signs t m member sign in ground arith)
