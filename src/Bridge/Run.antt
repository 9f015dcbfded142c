-- ===== src/Bridge/Run.antt =====
-- Runs of a tunnel: what they have delivered, and where they end.
use mathlib.Core.List.{append_assoc, append-nil}
use proxy_for_windows_app.Base.{
  ℕ, zero, suc, ◌≡◌, ◌≢◌, sym, ap, ◌∙◌, ◌⊎◌, inl, inr, true, false, List, [], ◌∷◌, ◌++◌, arith,
  Bool-cases,
}
use proxy_for_windows_app.Bridge.Copies.{
  opened, half, shut, Tunnel, established_line, open_tunnel, close_write, end_up, end_down,
  close_both, Step, copy_up, copy_down, finish_up, finish_down, fail_up, fail_down, close,
}

-- A run of so many steps.
pub data Run : ℕ → Tunnel → Tunnel → Type 0 where
  start : {t : Tunnel} → Run zero t t
  more : {n : ℕ} {t u v : Tunnel} → Run n t u → Step u v → Run (suc n) t v

-- What every state of a tunnel satisfies, `sent` and `answered` being all that the two ends send.
pub record Inv (sent answered : List ℕ) (t : Tunnel) : Type 0 where
  pub up : t.to_upstream ++ t.client_in ≡ sent
  pub down : t.to_client ++ t.upstream_in ≡ established_line ++ answered
  pub up_whole : t.up_done ≡ true → t.up_failed ≡ false → t.client_in ≡ []
  pub down_whole : t.down_done ≡ true → t.down_failed ≡ false → t.upstream_in ≡ []
  pub client_open : t.down_done ≡ false → t.client ≡ opened
  pub upstream_open : t.up_done ≡ false → t.upstream ≡ opened
  pub closing :
      ((t.client ≡ shut) × (t.upstream ≡ shut) × (t.up_done ≡ true) × (t.down_done ≡ true))
      ⊎ ((t.client ≢ shut) × (t.upstream ≢ shut) × (t.down_done ≡ true → t.client ≡ half))

shift : (xs : List ℕ) (c : ℕ) (rest : List ℕ) → (xs ++ c ∷ []) ++ rest ≡ xs ++ c ∷ rest
shift xs c rest = append_assoc xs (c ∷ []) rest

module _ (sent answered : List ℕ) where
  open_tunnel-Inv : Inv sent answered (open_tunnel sent answered)
  unfolding open_tunnel
  open_tunnel-Inv = ground arith

  Step-Inv : {t u : Tunnel} → Step t u → Inv sent answered t → Inv sent answered u
  unfolding end_up end_down close_both close_write
  Step-Inv (copy_up t c rest going here) i = ground (arith, shift t.to_upstream c rest)
  Step-Inv (copy_down t c rest going here) i = ground (arith, shift t.to_client c rest)
  Step-Inv (finish_up t going empty) i = ground arith
  Step-Inv (finish_down t going empty) i = ground arith
  Step-Inv (fail_up t going) i = ground arith
  Step-Inv (fail_down t going) i = ground arith
  Step-Inv (close t a b c) i = ground arith

  -- In every state of a tunnel each end has been sent a beginning of what the other end sends, in its
  -- order, after the line that tells the client of the connection; a copy that ended without an error has
  -- sent all of it; and the connections are closed only once both copies have ended.
  pub Run-Inv : {n : ℕ} {t : Tunnel} → Run n (open_tunnel sent answered) t → Inv sent answered t
  Run-Inv start = open_tunnel-Inv
  Run-Inv (more run step) = Step-Inv step (Run-Inv run)

stuck-done_up : (t : Tunnel) → ((u : Tunnel) → ¬ Step t u) → t.up_done ≡ true
stuck-done_up t stuck = elim (Bool-cases t.up_done) [
  | inl done ↦ done
  | inr going ↦ absurd (stuck _ (fail_up t going))
]

stuck-done_down : (t : Tunnel) → ((u : Tunnel) → ¬ Step t u) → t.down_done ≡ true
stuck-done_down t stuck = elim (Bool-cases t.down_done) [
  | inl done ↦ done
  | inr going ↦ absurd (stuck _ (fail_down t going))
]

-- A tunnel that can make no step any more has closed both connections; where its copies ended without
-- an error, each end has been sent all that the other end sends.
pub stuck-shut :
    (sent answered : List ℕ) {n : ℕ} {t : Tunnel}
    → Run n (open_tunnel sent answered) t
    → ((u : Tunnel) → ¬ Step t u)
    → (t.client ≡ shut)
      × (t.upstream ≡ shut)
      × ((t.up_failed ≡ true) ⊎ (t.to_upstream ≡ sent))
      × ((t.down_failed ≡ true) ⊎ (t.to_client ≡ established_line ++ answered))
stuck-shut sent answered {n} {t} run stuck =
    let i = Run-Inv sent answered run in
    let up = stuck-done_up t stuck in
    let down = stuck-done_down t stuck in
    let sent_up : (t.up_failed ≡ true) ⊎ (t.to_upstream ≡ sent) = elim (Bool-cases t.up_failed) [
      | inl failed ↦ inl failed
      | inr ok ↦ inr (whole t.to_upstream t.client_in sent (i.up_whole up ok) i.up)
    ] in
    let sent_down : (t.down_failed ≡ true) ⊎ (t.to_client ≡ established_line ++ answered) =
      elim (Bool-cases t.down_failed) [
        | inl failed ↦ inl failed
        | inr ok ↦ inr (
            whole t.to_client t.upstream_in (established_line ++ answered) (i.down_whole down ok)
              i.down)
      ] in
    elim i.closing [
      | inl (c, u, _, _) ↦ (c, u, sent_up, sent_down)
      | inr (_, _, ready) ↦ absurd (stuck _ (close t up down (ready down)))
    ]
  where
    whole : (front rest total : List ℕ) → rest ≡ [] → front ++ rest ≡ total → front ≡ total
    whole front rest total none_left e =
        sym (append-nil front) ∙ ap (◌++◌ front) (sym none_left) ∙ e
