-- ===== src/Arp/Sample.antt =====
-- An ARP sender all of whose system calls succeed.
use ot_tcp_listener.Prelude.{true, some, codes}
use ot_tcp_listener.Net.{Ip, Mac}
use ot_tcp_listener.Arp.{System}

abbrev pub mac : Mac
mac = record { m0 = 6; m1 = 7; m2 = 8; m3 = 9; m4 = 10; m5 = 11 }

abbrev pub src : Ip
src = record { a = 10; b = 0; c = 0; d = 5 }

abbrev pub target : Ip
target = record { a = 10; b = 0; c = 0; d = 6 }

abbrev pub working : System
working = record {
  blocks = record {
    src_mac = true;
    dst_mac = true;
    ether_frame = true;
    interface = true;
    target = true;
    src_ip = true;
  };
  lookup_socket = true;
  hardware_address = some mac;
  interface_index = some 2;
  source = some src;
  target = some target;
  raw_socket = true;
  sent = true;
  error_text = codes "Success";
}
