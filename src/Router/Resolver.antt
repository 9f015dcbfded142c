-- ===== src/Router/Resolver.antt =====
-- tun2socks/router/resolver_windows.go: who owns a connection. The rows of the system's tables, the
-- image path of a process and the snapshot of the processes are arguments; so is `windows.Ntohs`.
use proxy_for_windows_app.Base.{
  ℕ, ◌+◌, ◌*◌, ◌%◌, ◌^◌, Bool, true, false, ◌&&◌, List, [], ◌∷◌, Result, ok, err, ◌==◌,
}
use proxy_for_windows_app.Base.Text.{Text}
use proxy_for_windows_app.Base.FilePath.{after_separator}
use proxy_for_windows_app.Router.{
  RouterError, unsupported_network, owner_not_found, parent_not_found, OwnerInfo,
}

-- `netip.Addr`: the zero value, an IPv4 address, or an IPv6 address (also an IPv4-mapped one).
pub data IpAddr : Type 0 where
  invalid : IpAddr
  v4 : ℕ → ℕ → ℕ → ℕ → IpAddr
  v6 : List ℕ → IpAddr

pub data Network : Type 0 where
  tcp udp other : Network

-- The fields of `metadata.Metadata` that the resolver reads.
pub record Metadata : Type 0 where
  pub network : Network
  pub src_ip : IpAddr
  pub src_port : ℕ
  pub dst_ip : IpAddr
  pub dst_port : ℕ

-- `mibTCPRowOwnerPID`: every field is a `uint32`.
pub record TcpRow : Type 0 where
  pub local_addr : ℕ
  pub local_port : ℕ
  pub remote_addr : ℕ
  pub remote_port : ℕ
  pub owning_pid : ℕ

pub record UdpRow : Type 0 where
  pub local_addr : ℕ
  pub local_port : ℕ
  pub owning_pid : ℕ

-- `windows.ProcessEntry32`
pub record ProcessEntry : Type 0 where
  pub process_id : ℕ
  pub parent_process_id : ℕ

unfoldable pub same_ipv4 : ℕ → IpAddr → Bool
same_ipv4 raw (v4 a b c d) = raw == a + b * 2 ^ 8 + c * 2 ^ 16 + d * 2 ^ 24
same_ipv4 raw invalid = false
same_ipv4 raw (v6 bytes) = false

-- The end of `processName`: the part of a path behind its last `\` or `/`.
unfoldable pub image_name : Text → Text
image_name full_path = after_separator full_path

-- The loop of `parentPID` over the entries of a snapshot.
unfoldable pub parent_in : List ProcessEntry → ℕ → Result RouterError ℕ
parent_in [] pid = err parent_not_found
parent_in (entry ∷ entries) pid =
    let rest = parent_in entries pid in
    elim (entry.process_id == pid) [ true ↦ ok entry.parent_process_id | false ↦ rest ]

module _ (ntohs : ℕ → ℕ) where
  -- The tests of one round of the loop in `findTCPPID`.
  unfoldable pub owns_tcp : Metadata → TcpRow → Bool
  unfolding same_ipv4
  owns_tcp m row =
      ntohs (row.local_port % 2 ^ 16) == m.src_port
      && ntohs (row.remote_port % 2 ^ 16) == m.dst_port
      && (same_ipv4 row.local_addr m.src_ip && same_ipv4 row.remote_addr m.dst_ip)

  unfoldable pub find_tcp_pid : Result RouterError (List TcpRow) → Metadata → Result RouterError ℕ
  find_tcp_pid (err e) m = err e
  find_tcp_pid (ok []) m = err owner_not_found
  find_tcp_pid (ok (row ∷ rows)) m =
      let rest = find_tcp_pid (ok rows) m in
      elim (owns_tcp m row) [ true ↦ ok row.owning_pid | false ↦ rest ]

  unfoldable pub owns_udp : Metadata → UdpRow → Bool
  unfolding same_ipv4
  owns_udp m row =
      ntohs (row.local_port % 2 ^ 16) == m.src_port && same_ipv4 row.local_addr m.src_ip

  unfoldable pub find_udp_pid : Result RouterError (List UdpRow) → Metadata → Result RouterError ℕ
  find_udp_pid (err e) m = err e
  find_udp_pid (ok []) m = err owner_not_found
  find_udp_pid (ok (row ∷ rows)) m =
      let rest = find_udp_pid (ok rows) m in
      elim (owns_udp m row) [ true ↦ ok row.owning_pid | false ↦ rest ]

  -- The tail of both cases of `Resolve`: `image` is the path that the system gives for a process.
  unfoldable pub name_owner :
      (ℕ → Result RouterError Text) → Result RouterError ℕ → Result RouterError OwnerInfo
  name_owner image (err e) = err e
  name_owner image (ok pid) = elim (image pid) [
    | err e ↦ err e
    | ok path ↦ ok (record { pid = pid; process_name = image_name path })
  ]

  unfoldable pub resolve :
      Result RouterError (List TcpRow)
      → Result RouterError (List UdpRow)
      → (ℕ → Result RouterError Text)
      → Metadata
      → Result RouterError OwnerInfo
  unfolding name_owner
  resolve tcp_rows udp_rows image m = elim m.network [
    | tcp ↦ name_owner image (find_tcp_pid tcp_rows m)
    | udp ↦ name_owner image (find_udp_pid udp_rows m)
    | other ↦ err unsupported_network
  ]
