-- ===== src/Connections/Console.antt =====
-- netmonitor/main.go and the functions of netmonitor/winapi.go that differ from the GUI's. `to_lower` is
-- `strings.ToLower`.
use proxy_for_windows_app.Base.{
  ℕ, ◌%◌, ◌^◌, Bool, true, false, not, ◌&&◌, none, some, List, [], ◌∷◌, ◌++◌, ◌==◌, if◌then◌else◌,
  is_empty, ℕ_discrete,
}
use proxy_for_windows_app.Base.Text.{Text, codes, contains}
use proxy_for_windows_app.Base.Dict.{lookup}
use proxy_for_windows_app.Base.Digits.{decimal}
use proxy_for_windows_app.Connections.{
  MibTcpRow, MibUdpRow, Processes, Connection, Tables, format_ip, endpoint, name_of, tcp_states,
  rows_of,
}

-- `tcpState`
unfoldable pub tcp_state_console : ℕ → Text
unfolding lookup
tcp_state_console s = elim (lookup ℕ_discrete s tcp_states) [
  | some name ↦ name
  | none ↦ codes "UNKNOWN(" ++ (decimal s ++ codes ")")
]

-- `getProcessName`
unfoldable pub get_process_name_console : Processes → ℕ → Text
unfolding name_of
get_process_name_console p pid =
    if pid == 0
    then codes "System"
    else if not (p.opens pid)
    then codes "Unknown"
    else name_of (p.image_path pid) (codes "Unknown")

module _ (to_lower : Text → Text) (ntohs : ℕ → ℕ) (p : Processes) where
  -- `shouldSkip`; the filter on processes is a `uint`, which is cut to 32 bits.
  unfoldable pub should_skip_row : ℕ → ℕ → Text → Bool
  unfolding get_process_name_console
  should_skip_row pid filter_pid filter_name =
      if not (filter_pid == 0) && not (filter_pid % 2 ^ 32 == pid)
      then true
      else if not (is_empty filter_name)
      then not (contains (to_lower (get_process_name_console p pid)) (to_lower filter_name))
      else false

  -- What is printed for a row, its columns as the fields of a connection.
  unfoldable pub tcp_line : MibTcpRow → Connection
  unfolding get_process_name_console tcp_state_console
  tcp_line row = record {
    proto = codes "TCP";
    proc = get_process_name_console p row.owning_pid;
    pid = row.owning_pid;
    local = endpoint ntohs (format_ip row.local_addr) row.local_port;
    remote = endpoint ntohs (format_ip row.remote_addr) row.remote_port;
    state = tcp_state_console row.state;
  }

  unfoldable pub udp_line : MibUdpRow → Connection
  unfolding get_process_name_console
  udp_line row = record {
    proto = codes "UDP";
    proc = get_process_name_console p row.owning_pid;
    pid = row.owning_pid;
    local = endpoint ntohs (format_ip row.local_addr) row.local_port;
    remote = codes "*";
    state = codes "-";
  }

  -- The two loops over rows.
  unfoldable pub tcp_lines : ℕ → Text → List MibTcpRow → List Connection
  unfolding should_skip_row tcp_line
  tcp_lines filter_pid filter_name [] = []
  tcp_lines filter_pid filter_name (row ∷ rows) =
      let rest = tcp_lines filter_pid filter_name rows in
      if should_skip_row row.owning_pid filter_pid filter_name then rest else tcp_line row ∷ rest

  unfoldable pub udp_lines : ℕ → Text → List MibUdpRow → List Connection
  unfolding should_skip_row udp_line
  udp_lines filter_pid filter_name [] = []
  udp_lines filter_pid filter_name (row ∷ rows) =
      let rest = udp_lines filter_pid filter_name rows in
      if should_skip_row row.owning_pid filter_pid filter_name then rest else udp_line row ∷ rest

  -- What one round of the console's loop prints below the headline.
  unfoldable pub listing : ℕ → Text → Tables → List Connection
  unfolding tcp_lines udp_lines
  listing filter_pid filter_name t =
      tcp_lines filter_pid filter_name (rows_of t.tcp)
      ++ udp_lines filter_pid filter_name (rows_of t.udp)
