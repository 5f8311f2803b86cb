-- ===== src/NetworkTools/CallExamples.antt =====
-- The helpers of networktools.h that call the system, at concrete answers of it.
use ot_tcp_listener.Prelude.{
  ◌==◌, ◌&&◌, true, not, List, [], ◌∷◌, some, ◌≡◌, refl, Text, codes, arith, replicate,
  if◌then◌else◌, map,
}
use ot_tcp_listener.Prelude.Int.{ℤ, pos}
use ot_tcp_listener.Prelude.Outcome.{ok, fault, out_of_bounds}
use ot_tcp_listener.Net.{inet_ntoa}
use ot_tcp_listener.NetworkTools.Clean.{clean_q_string, change_tr_characters, printable}
use ot_tcp_listener.NetworkTools.DeviceSample.{has}
use ot_tcp_listener.NetworkTools.Iptos.{
  iptos_buffers, buffer_size, Iptos, address_bytes, iptos, text_at, IsValid,
}
use ot_tcp_listener.NetworkTools.Iptos.Ring.{
  next_buffer, iptos_all, iptos-IsValid, iptos_all-text_at,
}
use ot_tcp_listener.NetworkTools.Shell.{exec_shell, kept, exec_shell-kept}
use ot_tcp_listener.NetworkTools.Software.{has_text, is_accepted, installed_linux}
use ot_tcp_listener.NetworkTools.Software.Listing.{IsListing, installed_linux-has_text}
use ot_tcp_listener.NetworkTools.Ports.{
  listen, estab, TcpSystem, open_ports_windows, rows_read, Attribute, PortNode, open_ports_linux,
}
use ot_tcp_listener.NetworkTools.Ports.Values.{
  Connection, table_of, ports_told, blocks_after, document_ports, open_ports_values,
}
use ot_tcp_listener.NetworkTools.System.{Info, os_info_linux, os_info_linux-Info}
use ot_tcp_listener.Net.CString.{write_string}
use ot_tcp_listener.NetworkTools.Sockets.{FileFlags, set_socket_blocking_enabled}
use ot_tcp_listener.NetworkTools.Sockets.Blocking.{
  FlagsAfter, is_descriptor, has_flags, set_socket_blocking_enabled-FlagsAfter,
}

-- The static variables at the start.
abbrev zeros : Iptos
zeros = record { output = replicate iptos_buffers (replicate buffer_size 0); which = 0 }

zeros-IsValid : IsValid zeros
zeros-IsValid = record { buffers = refl; sizes = ground arith; which_in = omega arith }

iptos-IsValid_example :
    (s' : Iptos) × (iptos 0x0100000a zeros ≡ ok (next_buffer zeros, s'))
    × IsValid s'
    × (s'.which ≡ next_buffer zeros)
    × (text_at s' 1 ≡ (
        if 1 == next_buffer zeros
        then some (inet_ntoa (address_bytes 0x0100000a))
        else text_at zeros 1))
iptos-IsValid_example = iptos-IsValid 0x0100000a 1 zeros zeros-IsValid

iptos_all-text_at_example :
    (s' : Iptos) × (iptos_all (0x0100000a ∷ 1 ∷ 2 ∷ 3 ∷ []) zeros ≡ ok s')
    × IsValid s'
    × (text_at s' (next_buffer zeros) ≡ some (inet_ntoa (address_bytes 0x0100000a)))
iptos_all-text_at_example =
    iptos_all-text_at 0x0100000a (1 ∷ 2 ∷ 3 ∷ []) zeros zeros-IsValid (omega arith)

exec_shell-kept_example : exec_shell (some (b'a' ∷ 0 ∷ codes "x\nb\n")) ≡ ok (codes "ab\n")
unfolding kept
exec_shell-kept_example = exec_shell-kept (b'a' ∷ 0 ∷ codes "x\nb\n")

-- Stand-ins for QString::replace, toStdString and remove, which leave a text alone, and for a split
-- into two pieces, the one of them given twice.
abbrev keep : Text → Text → Text → Text
keep text before after = text

abbrev same : Text → Text
same t = t

abbrev three : Text → List Text
three t = t ∷ codes "nmap" ∷ t ∷ []

installed_linux-has_text_example :
    let cleaned : Text → Text = λ p. printable (same (change_tr_characters keep p)) in
    (l : List Text) × (installed_linux (clean_q_string keep same) same three (some (codes "vim"))
      ≡ ok l)
    × IsListing l
    × (has_text l (codes "vim") ≡ (
        is_accepted (codes "vim")
        && has_text (map cleaned (three (same (codes "vim")))) (codes "vim")))
unfolding kept
installed_linux-has_text_example =
    installed_linux-has_text keep same same three (codes "vim") (codes "vim")

abbrev number : ℤ → Text
number n = codes "502"

abbrev listener : Connection
listener = record {
  state = listen;
  address = record { a = 10; b = 0; c = 0; d = 5 };
  port = 502;
  high = 7;
}

abbrev connections : List Connection
connections = listener ∷ record listener { state = estab } ∷ []

abbrev system : TcpSystem
system = record {
  first_block = true;
  insufficient = true;
  second_block = true;
  table = rows_read [];
}

abbrev protocol_attribute : Attribute
protocol_attribute = record {
  is_item = true;
  is_attr = true;
  name = codes "protocol";
  value = codes "tcp";
}

abbrev port_node : PortNode
port_node = record {
  is_element = true;
  attributes =
      protocol_attribute
      ∷ record protocol_attribute { name = codes "portid"; value = codes "502" }
      ∷ [];
}

open_ports_values_example :
    let (ports, calls) =
      open_ports_windows has number (record system { table = table_of 0 (some connections) }) in
    (ports ≡ ports_told has number system (some connections))
    × (blocks_after 0 calls ≡ some 0)
    × (open_ports_linux has (codes "<port/>") (some (port_node ∷ []))
        ≡ document_ports has (codes "<port/>") (some (port_node ∷ [])))
open_ports_values_example =
    open_ports_values has number system 0 (some connections) (codes "<port/>")
      (some (port_node ∷ [])) (omega arith, (omega arith, tt))

abbrev open_socket : FileFlags
open_socket = record { flags = some 2050; settable = true }

set_socket_blocking_enabled-FlagsAfter_example :
    let (result, s') = set_socket_blocking_enabled (pos 5) true open_socket in
    let readable = is_descriptor (pos 5) && has_flags open_socket.flags in
    (result ≡ (readable && not open_socket.settable))
    × FlagsAfter (readable && open_socket.settable) true open_socket.flags s'.flags
set_socket_blocking_enabled-FlagsAfter_example =
    set_socket_blocking_enabled-FlagsAfter (pos 5) true open_socket

os_info_linux-Info_example :
    Info
      (replicate 8 0)
      (some (record { sysname = codes "Linux"; release = codes "5.4" }))
      (fault out_of_bounds)
unfolding os_info_linux write_string
os_info_linux-Info_example =
    os_info_linux-Info (some (record { sysname = codes "Linux"; release = codes "5.4" }))
      (replicate 8 0) (ground arith)
