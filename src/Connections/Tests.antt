-- ===== src/Connections/Tests.antt =====
-- The lists of connections at concrete tables.
use proxy_for_windows_app.Base.{ℕ, ◌≡◌, refl, true, some, [], ◌∷◌, ok, err, arith, ℕ_discrete}
use proxy_for_windows_app.Base.Text.{Text, codes}
use proxy_for_windows_app.Base.FilePath.{after_separator}
use proxy_for_windows_app.Base.Digits.{decimal, hex}
use proxy_for_windows_app.Connections.{
  MibTcpRow, MibUdp6Row, Processes, Tables, endpoint, format_ip, format_ip6, tcp_state,
  get_process_name, tcp_connection,
}
use proxy_for_windows_app.Connections.Fetching.{Fetch}
use proxy_for_windows_app.Connections.Addresses.{parse_ip, parse_ip-format_ip, format_ip6-collides}

abbrev swap : ℕ → ℕ
swap port = port

abbrev lower : Text → Text
lower s = s

abbrev processes : Processes
processes = record { opens = λ pid. true; image_path = λ pid. some (codes "C:\\a\\b.exe") }

abbrev tcp_row : MibTcpRow
tcp_row = record {
  state = 5;
  local_addr = 0x0100_007f;
  local_port = 80;
  remote_addr = 0x0100_007f;
  remote_port = 443;
  owning_pid = 12;
}

abbrev udp6_row : MibUdp6Row
udp6_row = record {
  local_addr = 1 ∷ 2 ∷ 3 ∷ [];
  local_scope_id = 0;
  local_port = 53;
  owning_pid = 0;
}

abbrev tables : Tables
tables = record { tcp = ok (tcp_row ∷ []); tcp6 = err 5; udp = ok []; udp6 = ok (udp6_row ∷ []) }

test_local : (tcp_connection swap processes tcp_row).local ≡ codes "127.0.0.1:80"
unfolding tcp_connection endpoint format_ip decimal
test_local = refl

test_proc : get_process_name processes 12 ≡ codes "b.exe"
unfolding get_process_name after_separator
test_proc = refl

test_ip6 : format_ip6 (0x20 ∷ 0x01 ∷ 0x0d ∷ 0xb8 ∷ []) ≡ codes "[201:db8]"
unfolding format_ip6 hex
test_ip6 = refl

test_state : tcp_state 13 ≡ codes "13"
unfolding tcp_state ℕ_discrete decimal
test_state = refl

abbrev no_size : Fetch MibTcpRow
no_size = record { size = 0; ret = 0; rows = [] }

parse_ip-format_ip_example : parse_ip (format_ip 0x0100_007f) ≡ some 0x0100_007f
parse_ip-format_ip_example = parse_ip-format_ip 0x0100_007f (omega arith)

-- 02 1a and 21 0a
format_ip6-collides_example : format_ip6 (2 ∷ 0x1a ∷ 7 ∷ []) ≡ format_ip6 (0x21 ∷ 0x0a ∷ 7 ∷ [])
format_ip6-collides_example =
    format_ip6-collides 2 1 10 (7 ∷ []) (omega arith) (λ h. ground arith) (omega arith)
      (λ h. ground arith) (omega arith)
