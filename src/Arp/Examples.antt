-- ===== src/Arp/Examples.antt =====
-- The ARP request of a system whose last call fails, and the theorems at it.
use ot_tcp_listener.Prelude.{All, false, ◌≡◌, refl, codes, replicate}
use ot_tcp_listener.Prelude.Outcome.{fault, out_of_bounds, null_pointer}
use ot_tcp_listener.Qt.Sample.{sample}
use ot_tcp_listener.Arp.{System, Arguments, block_of, strcpy_new, resolve, send_arp_packet}
use ot_tcp_listener.Arp.Memory.{allocate_with}
use ot_tcp_listener.Arp.Counts.{Effect}
use ot_tcp_listener.Arp.Leaks.{send_arp_packet-Effect}
use ot_tcp_listener.Arp.Sample.{working}
use ot_tcp_listener.Net.CString.{write_string}
use ot_tcp_listener.Arp.Request.{ReadBack, frames_of, send_arp_packet-ReadBack}

abbrev failing : System
failing = record working { sent = false }

abbrev asked : Arguments
asked = record {
  src_ip_addr = codes "10.0.0.5";
  targ_ip_addr = codes "10.0.0.6";
  eth_device = codes "eth0";
}

-- A target that its block cannot hold.
abbrev asked_long : Arguments
asked_long = record asked { targ_ip_addr = replicate 40 b'0' }

send_arp_packet-Effect_example : Effect asked failing (send_arp_packet asked failing)
send_arp_packet-Effect_example = send_arp_packet-Effect asked failing

-- A run in which there is no memory for the frame.
abbrev starved : System
starved = record working { blocks = record working.blocks { ether_frame = false } }

starved_run : send_arp_packet asked starved ≡ fault null_pointer
unfolding send_arp_packet strcpy_new block_of allocate_with write_string resolve
starved_run = refl

overrun_run : send_arp_packet asked_long working ≡ fault out_of_bounds
unfolding send_arp_packet strcpy_new block_of allocate_with write_string
overrun_run = refl

send_arp_packet-ReadBack_example :
    All (ReadBack sample working) (frames_of (send_arp_packet asked working))
send_arp_packet-ReadBack_example = send_arp_packet-ReadBack sample asked working
