-- ===== src/Connections.antt =====
-- The connections that netmonitor-gui/main.go and netmonitor/main.go show: `handleConnections`, the
-- console's loop, and the functions of both winapi.go. `ntohs` is `windows.Ntohs`; what the system
-- tells of a process is the record `Processes`, and what one of its calls returns is a `Fetch`.
pub mod Fetching
pub mod Addresses
pub mod Console
pub mod Views
pub mod Agreement
mod Tests
use proxy_for_windows_app.Base.{
  ℕ, ◌+◌, ◌/◌, ◌%◌, ◌^◌, Bool, true, false, not, Option, none, some, List, [], ◌∷◌, ◌++◌, ◌==◌,
  if◌then◌else◌, map, Result, ok, err, value_or, ℕ_discrete,
}
use proxy_for_windows_app.Base.Text.{Text, codes}
use proxy_for_windows_app.Base.Dict.{Dict, lookup}
use proxy_for_windows_app.Base.FilePath.{after_separator}
use proxy_for_windows_app.Base.Digits.{decimal, hex}

pub record MibTcpRow : Type 0 where
  pub state : ℕ
  pub local_addr : ℕ
  pub local_port : ℕ
  pub remote_addr : ℕ
  pub remote_port : ℕ
  pub owning_pid : ℕ

pub record MibUdpRow : Type 0 where
  pub local_addr : ℕ
  pub local_port : ℕ
  pub owning_pid : ℕ

-- An address is a list of bytes.
pub record MibTcp6Row : Type 0 where
  pub local_addr : List ℕ
  pub local_scope_id : ℕ
  pub local_port : ℕ
  pub remote_addr : List ℕ
  pub remote_scope_id : ℕ
  pub remote_port : ℕ
  pub state : ℕ
  pub owning_pid : ℕ

pub record MibUdp6Row : Type 0 where
  pub local_addr : List ℕ
  pub local_scope_id : ℕ
  pub local_port : ℕ
  pub owning_pid : ℕ

-- `formatIP`
unfoldable pub format_ip : ℕ → Text
format_ip ip =
    decimal (ip % 2 ^ 8)
    ++ b'.'
      ∷ (decimal (ip / 2 ^ 8 % 2 ^ 8)
          ++ b'.' ∷ (decimal (ip / 2 ^ 16 % 2 ^ 8) ++ b'.' ∷ decimal (ip / 2 ^ 24 % 2 ^ 8)))

-- The groups that `formatIP6` prints, two bytes in each.
unfoldable pub groups : List ℕ → Text
groups [] = []
groups (a ∷ []) = hex a
groups (a ∷ b ∷ []) = hex a ++ hex b
groups (a ∷ b ∷ c ∷ rest) = hex a ++ (hex b ++ b':' ∷ groups (c ∷ rest))

-- `formatIP6`
unfoldable pub format_ip6 : List ℕ → Text
unfolding groups
format_ip6 ip = b'[' ∷ (groups ip ++ codes "]")

-- The map of `tcpState`.
abbrev pub tcp_states : Dict ℕ Text
tcp_states =
    (1, codes "CLOSED")
    ∷ (2, codes "LISTEN")
    ∷ (3, codes "SYN_SENT")
    ∷ (4, codes "SYN_RCVD")
    ∷ (5, codes "ESTAB")
    ∷ (6, codes "FIN_WAIT1")
    ∷ (7, codes "FIN_WAIT2")
    ∷ (8, codes "CLOSE_WAIT")
    ∷ (9, codes "CLOSING")
    ∷ (10, codes "LAST_ACK")
    ∷ (11, codes "TIME_WAIT")
    ∷ (12, codes "DELETE_TCB")
    ∷ []

-- `tcpState` of the GUI.
unfoldable pub tcp_state : ℕ → Text
unfolding lookup
tcp_state s = value_or (lookup ℕ_discrete s tcp_states) (decimal s)

pub record Processes : Type 0 where
  -- `OpenProcess`
  pub opens : ℕ → Bool
  -- `QueryFullProcessImageNameW`
  pub image_path : ℕ → Option Text

-- The end of `getProcessName`: the image's name, or a text for its failure.
unfoldable pub name_of : Option Text → Text → Text
name_of none failure = failure
name_of (some full_path) failure = after_separator full_path

-- `getProcessName` of the GUI.
unfoldable pub get_process_name : Processes → ℕ → Text
unfolding name_of
get_process_name p pid =
    if pid == 0
    then codes "System Idle Process"
    else if pid == 4
    then codes "System"
    else if not (p.opens pid)
    then codes "Unknown (PID " ++ (decimal pid ++ codes ")")
    else name_of (p.image_path pid) (codes "Access Denied")

pub record Connection : Type 0 where
  pub proto : Text
  pub proc : Text
  pub pid : ℕ
  pub local : Text
  pub remote : Text
  pub state : Text

-- The four tables of one round; an error is a call that failed.
pub record Tables : Type 0 where
  pub tcp : Result ℕ (List MibTcpRow)
  pub tcp6 : Result ℕ (List MibTcp6Row)
  pub udp : Result ℕ (List MibUdpRow)
  pub udp6 : Result ℕ (List MibUdp6Row)

-- The rows of a table; a failed call gives none.
abbrev pub rows_of {ℓ} : {A : Type ℓ} → Result ℕ (List A) → List A
rows_of (ok rows) = rows
rows_of (err e) = []

-- `fmt.Sprintf("%s:%d", …, windows.Ntohs(uint16(port)))`
unfoldable pub endpoint : (ℕ → ℕ) → Text → ℕ → Text
endpoint ntohs address port = address ++ b':' ∷ decimal (ntohs (port % 2 ^ 16))

module _ (ntohs : ℕ → ℕ) (p : Processes) where
  unfoldable pub tcp_connection : MibTcpRow → Connection
  tcp_connection row = record {
    proto = codes "TCP";
    proc = get_process_name p row.owning_pid;
    pid = row.owning_pid;
    local = endpoint ntohs (format_ip row.local_addr) row.local_port;
    remote = endpoint ntohs (format_ip row.remote_addr) row.remote_port;
    state = tcp_state row.state;
  }

  unfoldable pub tcp6_connection : MibTcp6Row → Connection
  tcp6_connection row = record {
    proto = codes "TCP6";
    proc = get_process_name p row.owning_pid;
    pid = row.owning_pid;
    local = endpoint ntohs (format_ip6 row.local_addr) row.local_port;
    remote = endpoint ntohs (format_ip6 row.remote_addr) row.remote_port;
    state = tcp_state row.state;
  }

  unfoldable pub udp_connection : MibUdpRow → Connection
  udp_connection row = record {
    proto = codes "UDP";
    proc = get_process_name p row.owning_pid;
    pid = row.owning_pid;
    local = endpoint ntohs (format_ip row.local_addr) row.local_port;
    remote = codes "*";
    state = codes "-";
  }

  unfoldable pub udp6_connection : MibUdp6Row → Connection
  udp6_connection row = record {
    proto = codes "UDP6";
    proc = get_process_name p row.owning_pid;
    pid = row.owning_pid;
    local = endpoint ntohs (format_ip6 row.local_addr) row.local_port;
    remote = codes "*";
    state = codes "-";
  }

  -- The list that one round of `handleConnections` writes.
  unfoldable pub connections : Tables → List Connection
  unfolding tcp_connection tcp6_connection udp_connection udp6_connection
  connections t =
      map tcp_connection (rows_of t.tcp)
      ++ (map tcp6_connection (rows_of t.tcp6)
          ++ (map udp_connection (rows_of t.udp) ++ map udp6_connection (rows_of t.udp6)))

  -- The loop of `handleConnections` over rounds: the tables of each, and whether `WriteJSON` fails on
  -- it. What has been written, and whether the loop has ended.
  unfoldable pub handle_connections : List (Tables × Bool) → List (List Connection) × Bool
  unfolding connections
  handle_connections [] = ([], false)
  handle_connections ((t, true) ∷ rounds) = ([], true)
  handle_connections ((t, false) ∷ rounds) =
      let (written, ended) = handle_connections rounds in (connections t ∷ written, ended)
