-- ===== src/Bridge.antt =====
-- The local bridge of a browser in netmonitor-gui/main.go: `startBrowserProxyBridge`, `ServeHTTP` and
-- `handleConnect`, up to the two copies that `proxyCopy` makes; Bridge/Copies has the copies. What the
-- network answers to one CONNECT request is the record `Answers`.
pub mod Copies
pub mod Run
pub mod Connect
pub mod Streams
mod Tests
use proxy_for_windows_app.Base.{
  ℕ, ltb, Bool, true, false, not, ◌&&◌, Option, none, some, List, [], ◌∷◌, ◌++◌, ◌==◌,
  if◌then◌else◌, value_or, map,
}
use proxy_for_windows_app.Base.Text.{Text, codes, same, Text-discrete}
use proxy_for_windows_app.Base.Dict.{Dict, lookup, insert, erase}
use proxy_for_windows_app.Address.{BrowserProxySettings}
use proxy_for_windows_app.Bridge.Copies.{Socket, unopened, opened, shut, Tunnel, open_tunnel}

-- `b.upstream`; `user` is `User`, with its password.
pub record Upstream : Type 0 where
  pub scheme : Text
  pub host : Text
  pub user : Option (Text × Text)

-- The URL that `startBrowserProxyBridge` makes; `join_host_port` is `net.JoinHostPort` after
-- `fmt.Sprint` of the port.
unfoldable pub upstream_of : (Text → ℕ → Text) → BrowserProxySettings → Upstream
upstream_of join_host_port settings = record {
  scheme = settings.scheme;
  host = join_host_port settings.host settings.port;
  user = some (settings.username, settings.password);
}

abbrev pub Headers : Type 0
Headers = Dict Text Text

-- `Header.Get`: no value is the empty one.
abbrev pub header : Text → Headers → Text
header key headers = value_or (lookup Text-discrete key headers) []

-- The headers of the request that `handleConnect` writes; `basic` is the value that `SetBasicAuth` makes
-- of a user and a password.
unfoldable pub connect_headers : (Text → Text → Text) → Option (Text × Text) → Headers
connect_headers basic none = (codes "Proxy-Connection", codes "Keep-Alive") ∷ []
connect_headers basic (some (user, password)) =
    let start = (codes "Proxy-Connection", codes "Keep-Alive") ∷ [] in
    let with_user = insert Text-discrete (codes "Authorization") (basic user password) start in
    let with_proxy =
      insert Text-discrete (codes "Proxy-Authorization") (header (codes "Authorization") with_user)
        with_user in
    erase Text-discrete (codes "Authorization") with_proxy

-- The answer to the request: its status, and what the reader holds of the bytes behind it.
pub record Response : Type 0 where
  pub status : ℕ
  pub behind : List ℕ

pub record Answers : Type 0 where
  pub dials : Bool
  pub writes : Bool
  pub response : Option Response
  pub can_hijack : Bool
  -- `Hijack`: the bytes of the client that the server had read already
  pub hijack : Option (List ℕ)
  -- what the two ends send from then on
  pub client_later : List ℕ
  pub upstream_later : List ℕ

-- What the handler gives the client: an error, with the status that the client gets in the end; a
-- connection that the server closes because the handler has panicked; nothing; or a tunnel.
pub data Reply : Type 0 where
  refused : ℕ → Reply
  aborted : Reply
  silent : Reply
  established : Tunnel → Reply

-- The end of `handleConnect`, from `Hijack` on; the second result is the upstream connection.
after_hijack : Option (List ℕ) → List ℕ → Answers → Reply × Socket
after_hijack none behind a = (silent, shut)
after_hijack (some early) behind a =
    (established (open_tunnel a.client_later (behind ++ a.upstream_later)), opened)

-- `http.Error` with a status from the network. `WriteHeader` panics below 100; it sends an informational
-- status ahead of the answer proper, which the text that follows then begins with the status 200.
unfoldable pub http_error : ℕ → Reply
http_error status =
    if ltb status 100
    then aborted
    else if ltb status 200 && not (status == 101)
    then refused 200
    else refused status

after_response : Option Response → Answers → Reply × Socket
unfolding after_hijack http_error
after_response none a = (refused 502, shut)
after_response (some r) a =
    if not (r.status == 200)
    then (http_error r.status, shut)
    else if not a.can_hijack
    then (refused 500, shut)
    else after_hijack a.hijack r.behind a

-- `handleConnect`
unfoldable pub handle_connect : Answers → Reply × Socket
unfolding after_response
handle_connect a =
    if not a.dials
    then (refused 502, unopened)
    else if not a.writes
    then (refused 502, shut)
    else after_response a.response a

-- What `RoundTrip` returns for another request: the status, the headers with their values, the body.
pub record Relay : Type 0 where
  pub status : ℕ
  pub headers : List (Text × List Text)
  pub body : List ℕ

pub data Served : Type 0 where
  connected : Reply × Socket → Served
  failed : ℕ → Served
  -- with one header for each value of each key
  relayed : ℕ → List (Text × Text) → List ℕ → Served

-- The two loops over `resp.Header`.
pub added : List (Text × List Text) → List (Text × Text)
added [] = []
added ((key, values) ∷ rest) = map (λ value. (key, value)) values ++ added rest

pub relay : Option Relay → Served
relay none = failed 502
relay (some r) = relayed r.status (added r.headers) r.body

-- `ServeHTTP`, with the request's method.
unfoldable pub serve_http : Text → Answers → Option Relay → Served
unfolding handle_connect relay
serve_http method a answer =
    if same method (codes "CONNECT") then connected (handle_connect a) else relay answer
