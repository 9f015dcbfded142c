-- ===== src/Bridge/Copies.antt =====
-- A tunnel of the bridge: the two goroutines that run `proxyCopy`, and the one that waits for both and
-- closes the connections. They run in any order, as steps of one byte.
use proxy_for_windows_app.Base.{ℕ, ◌≡◌, Bool, true, false, List, [], ◌∷◌, ◌++◌}
use proxy_for_windows_app.Base.Text.{codes}

-- A connection: never opened, open, open with its writing side closed, closed.
pub data Socket : Type 0 where
  unopened opened half shut : Socket

-- What each end will still send before its end of file, what each has been sent, whether each copy has
-- ended, whether an error ended it, and the two connections.
pub record Tunnel : Type 0 where
  pub client_in : List ℕ
  pub upstream_in : List ℕ
  pub to_upstream : List ℕ
  pub to_client : List ℕ
  pub up_done : Bool
  pub down_done : Bool
  pub up_failed : Bool
  pub down_failed : Bool
  pub client : Socket
  pub upstream : Socket

-- What `handleConnect` writes to the client.
abbrev pub established_line : List ℕ
established_line = codes "HTTP/1.1 200 Connection Established\r\n\r\n"

-- The state in which `handleConnect` starts the goroutines.
unfoldable pub open_tunnel : List ℕ → List ℕ → Tunnel
open_tunnel client_in upstream_in = record {
  client_in = client_in;
  upstream_in = upstream_in;
  to_upstream = [];
  to_client = established_line;
  up_done = false;
  down_done = false;
  up_failed = false;
  down_failed = false;
  client = opened;
  upstream = opened;
}

-- `closeWrite`; the connections are TCP connections, which have `CloseWrite`, so that its last line is not
-- reached.
unfoldable pub close_write : Socket → Socket
close_write opened = half
close_write unopened = unopened
close_write half = half
close_write shut = shut

-- The end of the copy to the upstream proxy, by the end of the file or by an error.
unfoldable pub end_up : Bool → Tunnel → Tunnel
unfolding close_write
end_up failed t = record t { up_done = true; up_failed = failed; upstream = close_write t.upstream }

unfoldable pub end_down : Bool → Tunnel → Tunnel
unfolding close_write
end_down failed t = record t {
  down_done = true;
  down_failed = failed;
  client = close_write t.client;
}

-- What the goroutine behind `wg.Wait()` does.
unfoldable pub close_both : Tunnel → Tunnel
close_both t = record t { client = shut; upstream = shut }

pub data Step : Tunnel → Tunnel → Type 0 where
  copy_up :
      (t : Tunnel) (c : ℕ) (rest : List ℕ)
      → t.up_done ≡ false
      → t.client_in ≡ c ∷ rest
      → Step t (record t { client_in = rest; to_upstream = t.to_upstream ++ c ∷ [] })
  copy_down :
      (t : Tunnel) (c : ℕ) (rest : List ℕ)
      → t.down_done ≡ false
      → t.upstream_in ≡ c ∷ rest
      → Step t (record t { upstream_in = rest; to_client = t.to_client ++ c ∷ [] })
  finish_up : (t : Tunnel) → t.up_done ≡ false → t.client_in ≡ [] → Step t (end_up false t)
  finish_down : (t : Tunnel) → t.down_done ≡ false → t.upstream_in ≡ [] → Step t (end_down false t)
  fail_up : (t : Tunnel) → t.up_done ≡ false → Step t (end_up true t)
  fail_down : (t : Tunnel) → t.down_done ≡ false → Step t (end_down true t)
  close :
      (t : Tunnel) → t.up_done ≡ true → t.down_done ≡ true → t.client ≡ half → Step t (close_both t)
