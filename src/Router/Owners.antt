-- ===== src/Router/Owners.antt =====
-- The search of the resolver for the owner of a connection.
use proxy_for_windows_app.Base.{
  ℕ, ◌+◌, ◌*◌, ◌%◌, ◌^◌, ◌/◌, ◌<◌, ◌≡◌, ◌≢◌, ◌↔◌, refl, ap, ◌⊎◌, inl, inr, true, false, List, [],
  ◌∷◌, ◌++◌, Result, ok, err, arith, Bool-cases, All, Result-cases, ==→eq, eq→==,
}
use proxy_for_windows_app.Base.Text.{Text}
use proxy_for_windows_app.Router.{RouterError, PidRouter, owner_not_found, pick_pid}
use proxy_for_windows_app.Router.Resolver.{
  v4, v6, Metadata, TcpRow, UdpRow, same_ipv4, owns_tcp, owns_udp, find_tcp_pid, find_udp_pid,
  resolve,
}

module _ (ntohs : ℕ → ℕ) (m : Metadata) where
  -- Either `findTCPPID` returns the owner of the first row of the table that the connection matches,
  -- or no row matches and it returns the error that no owner was found.
  pub find_tcp_pid-first :
      (rows : List TcpRow)
      → ((before after : List TcpRow) × (row : TcpRow) × (rows ≡ before ++ row ∷ after)
          × All (λ r. owns_tcp ntohs m r ≡ false) before
          × (owns_tcp ntohs m row ≡ true)
          × (find_tcp_pid ntohs (ok rows) m ≡ ok row.owning_pid))
        ⊎ (All (λ r. owns_tcp ntohs m r ≡ false) rows
            × (find_tcp_pid ntohs (ok rows) m ≡ err owner_not_found))
  unfolding find_tcp_pid
  find_tcp_pid-first [] = inr (tt, refl)
  find_tcp_pid-first (row ∷ rows) = elim (Bool-cases (owns_tcp ntohs m row)) [
    | inl hit ↦ inl ([], rows, row, refl, tt, hit, rw (hit, find_tcp_pid))
    | inr miss ↦ elim (find_tcp_pid-first rows) [
      | inl (before, after, found, e, none_before, hit, r) ↦ inl (
        row ∷ before,
        after,
        found,
        ap (◌∷◌ row) e,
        (miss, none_before),
        hit,
        rw (miss, find_tcp_pid) r,
      )
      | inr (no_row, r) ↦ inr ((miss, no_row), rw (miss, find_tcp_pid) r)
    ]
  ]

  -- A TCP connection with an IPv6 address at either end has no owner, whatever the table holds.
  find_tcp_pid-ipv6 :
      (rows : Result RouterError (List TcpRow)) (bytes : List ℕ)
      → (m.src_ip ≡ v6 bytes) ⊎ (m.dst_ip ≡ v6 bytes)
      → (pid : ℕ) → find_tcp_pid ntohs rows m ≢ ok pid
  unfolding find_tcp_pid owns_tcp
  find_tcp_pid-ipv6 (err e) bytes far pid = ground arith
  find_tcp_pid-ipv6 (ok []) bytes far pid = ground arith
  find_tcp_pid-ipv6 (ok (row ∷ rows)) bytes far pid =
      ground (arith, find_tcp_pid-ipv6 (ok rows) bytes far pid)

  find_udp_pid-ipv6 :
      (rows : Result RouterError (List UdpRow)) (bytes : List ℕ)
      → m.src_ip ≡ v6 bytes
      → (pid : ℕ) → find_udp_pid ntohs rows m ≢ ok pid
  unfolding find_udp_pid owns_udp
  find_udp_pid-ipv6 (err e) bytes far pid = ground arith
  find_udp_pid-ipv6 (ok []) bytes far pid = ground arith
  find_udp_pid-ipv6 (ok (row ∷ rows)) bytes far pid =
      ground (arith, find_udp_pid-ipv6 (ok rows) bytes far pid)

  -- The PID router picks its direct proxy for every connection from an IPv6 address, on any network,
  -- whatever the system's tables hold and whatever rules the router has.
  pub pick_pid-ipv6_direct :
      {P : Type 0} (parent_pid : ℕ → ℕ → Result RouterError ℕ) (r : PidRouter P)
      (tcp_rows : Result RouterError (List TcpRow)) (udp_rows : Result RouterError (List UdpRow))
      (image : ℕ → Result RouterError Text) (bytes : List ℕ)
      → m.src_ip ≡ v6 bytes
      → pick_pid parent_pid r (resolve ntohs tcp_rows udp_rows image m) ≡ r.direct
  unfolding resolve pick_pid
  pick_pid-ipv6_direct parent_pid r tcp_rows udp_rows image bytes far =
      elim (Result-cases (find_tcp_pid ntohs tcp_rows m)) [
        | inl (pid, e) ↦ absurd (find_tcp_pid-ipv6 tcp_rows bytes (inl far) pid e)
        | inr (x, e) ↦ elim (Result-cases (find_udp_pid ntohs udp_rows m)) [
          | inl (pid, e') ↦ absurd (find_udp_pid-ipv6 udp_rows bytes far pid e')
          | inr (x', e') ↦ ground arith
        ]
      ]

-- `sameIPv4` holds of a 32-bit word and an IPv4 address exactly if the bytes of the word, the lowest
-- first, are the four bytes of the address.
pub same_ipv4-bytes :
    (raw a b c d : ℕ)
    → raw < 2 ^ 32
    → a < 256
    → b < 256
    → c < 256
    → d < 256
    → (same_ipv4 raw (v4 a b c d) ≡ true)
      ↔ ((raw % 256 ≡ a) × (raw / 256 % 256 ≡ b) × (raw / 65536 % 256 ≡ c) × (raw / 16777216 ≡ d))
unfolding same_ipv4
same_ipv4-bytes raw a b c d hr ha hb hc hd = (
  λ e. let word = ==→eq raw (a + b * 2 ^ 8 + c * 2 ^ 16 + d * 2 ^ 24) e in omega arith,
  λ (e0, e1, e2, e3). eq→== raw (a + b * 2 ^ 8 + c * 2 ^ 16 + d * 2 ^ 24) (omega arith),
)
