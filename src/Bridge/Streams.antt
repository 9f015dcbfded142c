-- ===== src/Bridge/Streams.antt =====
-- Bytes that a client sends before it has read the answer to its request.
use mathlib.Core.Path.{subst}
use proxy_for_windows_app.Base.{
  ℕ, ◌≡◌, ◌≢◌, refl, ap, some, List, [], ◌∷◌, ◌++◌, arith, length, length-append,
}
use proxy_for_windows_app.Bridge.Copies.{Socket, Tunnel, open_tunnel}
use proxy_for_windows_app.Bridge.Run.{Run, Run-Inv}
use proxy_for_windows_app.Bridge.{
  Answers, Reply, refused, aborted, silent, established, handle_connect,
}
use proxy_for_windows_app.Bridge.Connect.{Tidy, handle_connect-Tidy}

opened-as :
    (a : Answers) (t : Tunnel) (r : Reply) (s : Socket)
    → r ≡ established t
    → Tidy a (r, s)
    → (answered : List ℕ) × (t ≡ open_tunnel a.client_later answered)
unfolding Tidy
opened-as a t (established u) s e (_, (r, _, _, _, _, opens)) =
    (r.behind ++ a.upstream_later, ground (arith, opens))
opened-as a t (refused _) s e tidy = ground arith
opened-as a t aborted s e tidy = ground arith
opened-as a t silent s e tidy = ground arith

none_missing :
    (early later sent : List ℕ)
    → early ≢ []
    → sent ≡ early ++ later
    → (rest : List ℕ) → sent ++ rest ≢ later
none_missing [] later sent some_early e rest h = absurd (some_early refl)
none_missing (c ∷ early) later sent some_early e rest h =
    let lengths = ap length h in
    let sent_length = ap length e in
    let split = length-append sent rest in
    let early_length = length-append early later in ground arith

-- The bytes of a client that the server had read before the connection was taken over are lost: if there
-- are any, no state of the tunnel has sent the proxy all that the client has sent.
pub handle_connect-loses_early :
    (a : Answers) (t u : Tunnel) (n : ℕ) (early : List ℕ)
    → a.hijack ≡ some early
    → early ≢ []
    → (handle_connect a).0 ≡ established t
    → Run n t u
    → u.to_upstream ≢ early ++ a.client_later
handle_connect-loses_early a t u n early held some_early connected run complete =
    let (answered, opens) =
      opened-as a t (handle_connect a).0 (handle_connect a).1 connected (handle_connect-Tidy a) in
    let from_open = subst (λ o. Run n o u) opens run in
    none_missing early a.client_later u.to_upstream some_early complete u.client_in
      (Run-Inv a.client_later answered from_open).up
