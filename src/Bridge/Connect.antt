-- ===== src/Bridge/Connect.antt =====
-- The request that the bridge sends to its proxy, and what it does with the answer.
use proxy_for_windows_app.Base.{
  ℕ, ◌≡◌, ◌≢◌, ◌≤◌, ◌<◌, ◌⊎◌, inl, inr, refl, ltb, not, ◌&&◌, Option, none, some, List, ◌++◌, ◌==◌,
  arith, if_intro, ℕ_discrete,
}
use proxy_for_windows_app.Base.Text.{Text, codes, Text-discrete}
use proxy_for_windows_app.Base.Dict.{lookup, insert, erase}
use proxy_for_windows_app.Bridge.Copies.{Socket, unopened, opened, shut, open_tunnel}
use proxy_for_windows_app.Bridge.{
  header, connect_headers, Response, Answers, Reply, refused, aborted, silent, http_error,
  established, after_hijack, after_response, handle_connect,
}

-- A tunnel over an open connection, or an answer with the connection to the proxy closed or never opened.
-- An answer has the status 200 only if the proxy has answered with an informational status, and none is
-- given, by a panic, only if its status is below 100.
unfoldable pub Tidy : Answers → Reply × Socket → Type 0
Tidy a (established t, s) =
    (s ≡ opened)
    × ((r : Response) × (early : List ℕ) × (a.response ≡ some r)
        × (r.status ≡ 200)
        × (a.hijack ≡ some early)
        × (t ≡ open_tunnel a.client_later (r.behind ++ a.upstream_later)))
Tidy a (refused status, s) =
    (s ≢ opened)
    × ((status ≢ 200)
        ⊎ ((r : Response) × (a.response ≡ some r)
            × (100 ≤ r.status)
            × (r.status < 200)
            × (r.status ≢ 101)))
Tidy a (aborted, s) = (s ≢ opened) × ((r : Response) × (a.response ≡ some r) × (r.status < 100))
Tidy a (silent, s) = (s ≢ opened) × (a.hijack ≡ none)

shut-ne-opened : shut ≢ opened
shut-ne-opened h = ground arith

refused-Tidy :
    (a : Answers) (status : ℕ) (s : Socket) → s ≢ opened → status ≢ 200 → Tidy a (refused status, s)
unfolding Tidy
refused-Tidy a status s closed other = (closed, inl other)

http_error-Tidy :
    (a : Answers) (r : Response)
    → a.response ≡ some r
    → r.status ≢ 200
    → Tidy a (http_error r.status, shut)
unfolding http_error Tidy
http_error-Tidy a r answered other =
    if_intro (λ o. Tidy a (o, shut)) (ltb r.status 100) _ _
      (λ low. (shut-ne-opened, (r, answered, ground arith)))
      (λ high.
        if_intro (λ o. Tidy a (o, shut)) (ltb r.status 200 && not (r.status == 101)) _ _
          (λ informational. (
            shut-ne-opened,
            inr (r, answered, ground arith, ground arith, λ switching. ground arith),
          ))
          (λ _. (shut-ne-opened, inl other)))

hijack-Tidy :
    (a : Answers) (r : Response)
    → a.response ≡ some r
    → r.status ≡ 200
    → (h : Option (List ℕ)) → a.hijack ≡ h
    → Tidy a (after_hijack h r.behind a)
unfolding after_hijack Tidy
hijack-Tidy a r answered fine none e = (λ h. ground arith, e)
hijack-Tidy a r answered fine (some early) e = (refl, (r, early, answered, fine, e, refl))

response-Tidy : (a : Answers) (o : Option Response) → a.response ≡ o → Tidy a (after_response o a)
unfolding after_response
response-Tidy a none e = refused-Tidy a 502 shut shut-ne-opened (λ h. ground arith)
response-Tidy a (some r) e =
    if_intro (Tidy a) (not (r.status == 200)) _ _
      (λ other. http_error-Tidy a r e (λ h. ground arith))
      (λ fine.
        if_intro (Tidy a) (not a.can_hijack) _ _
          (λ _. refused-Tidy a 500 shut shut-ne-opened (λ h. ground arith))
          (λ _. hijack-Tidy a r e (ground arith) a.hijack refl))

pub handle_connect-Tidy : (a : Answers) → Tidy a (handle_connect a)
unfolding handle_connect
handle_connect-Tidy a =
    if_intro (Tidy a) (not a.dials) _ _
      (λ _. refused-Tidy a 502 unopened (λ h. ground arith) (λ h. ground arith))
      (λ _.
        if_intro (Tidy a) (not a.writes) _ _
          (λ _. refused-Tidy a 502 shut shut-ne-opened (λ h. ground arith))
          (λ _. response-Tidy a a.response refl))

-- The request names the credentials of the proxy in `Proxy-Authorization`, and nowhere else: it has no
-- header `Authorization`, which the target of the connection would be sent.
pub connect_headers-credentials :
    (basic : Text → Text → Text) (user password : Text)
    → let headers = connect_headers basic (some (user, password)) in
      (header (codes "Proxy-Authorization") headers ≡ basic user password)
      × (lookup Text-discrete (codes "Authorization") headers ≡ none)
      × (header (codes "Proxy-Connection") headers ≡ codes "Keep-Alive")
unfolding connect_headers insert erase lookup Text-discrete ℕ_discrete
connect_headers-credentials basic user password = (refl, refl, refl)
