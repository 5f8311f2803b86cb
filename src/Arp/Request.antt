-- ===== src/Arp/Request.antt =====
-- The ARP request of arp.h as Sniffer::processArpPacket of sniffer.cpp reads it.
use mathlib.Core.Path.{subst}
use ot_tcp_listener.Prelude.{
  ℕ, ◌+◌, false, List, [], Option, none, some, ◌≡◌, refl, sym, inl, inr, All, Bytes, Text, length,
  Bool-cases,
}
use ot_tcp_listener.Prelude.Int.{pos}
use ot_tcp_listener.Prelude.Outcome.{Outcome, ok, fault}
use ot_tcp_listener.Qt.{Qt}
use ot_tcp_listener.Net.{Ip, Mac, inet_ntoa}
use ot_tcp_listener.Arp.Header.{request_frame, arp_hdrlen, arp_hdr_bytes, request_header}
use ot_tcp_listener.Arp.{Arguments, System, Call, send_arp_packet}
use ot_tcp_listener.Arp.Counts.{frames_sent, expected_frames, succeeds, Effect, faulted, traced}
use ot_tcp_listener.Arp.Leaks.{send_arp_packet-Effect}
use ot_tcp_listener.Sniffer.{Capture, arp, monitor_pcap, inspect, dispatch}
use ot_tcp_listener.Sniffer.Arp.{process_arp_packet, mac_text}

-- The frame has the size that is handed to sendto, and its header that of ARP_HDRLEN.
pub length-request_frame :
    (mac : Mac) (src target : Ip)
    → (length (request_frame mac src target) ≡ 6 + 6 + 2 + arp_hdrlen)
      × (length (arp_hdr_bytes (request_header mac src target)) ≡ arp_hdrlen)
unfolding request_frame
length-request_frame mac src target = (refl, refl)

-- A request frame that Arp makes, captured by MonitorPcap, is read as ARP with the two addresses
-- of its sender.
pub monitor_pcap-request_frame :
    (qt : Qt) (mac : Mac) (src target : Ip)
    → monitor_pcap qt false (record {
      packet_count = pos 1;
      header = some (record { caplen = 42; len = 42 });
      packet = some (request_frame mac src target);
    })
      ≡ ok (arp (some (inet_ntoa src, mac_text mac)))
unfolding monitor_pcap inspect dispatch process_arp_packet request_frame
monitor_pcap-request_frame qt mac src target = refl

-- What pcap_next_ex gives for a frame that was captured whole.
abbrev pub captured_frame : Bytes → Capture
captured_frame bytes = record {
  packet_count = pos 1;
  header = some (record { caplen = length bytes; len = length bytes });
  packet = some bytes;
}

-- The frames that a call of sendArpPacket sends.
abbrev pub frames_of : Outcome (List Call) → List (ℕ × Bytes)
frames_of (ok calls) = frames_sent calls
frames_of (fault e) = []

-- The two addresses that the system calls gave.
abbrev pub given_addresses : Option Ip → Option Mac → Option (Text × Text)
given_addresses (some src) (some mac) = some (inet_ntoa src, mac_text mac)
given_addresses _ _ = none

module _ (qt : Qt) where
  abbrev pub ReadBack : System → ℕ × Bytes → Type 0
  ReadBack s (index, bytes) =
      monitor_pcap qt false (captured_frame bytes)
      ≡ ok (arp (given_addresses s.source s.hardware_address))

  expected_frames-ReadBack :
      (s : System) (mac : Option Mac) (index : Option ℕ) (src target : Option Ip)
      → s.hardware_address ≡ mac
      → s.source ≡ src
      → All (ReadBack s) (expected_frames s mac index src target)
  unfolding request_frame
  expected_frames-ReadBack s none index src target e e' = tt
  expected_frames-ReadBack s (some mac) none src target e e' = tt
  expected_frames-ReadBack s (some mac) (some index) none target e e' = tt
  expected_frames-ReadBack s (some mac) (some index) (some src) none e e' = tt
  expected_frames-ReadBack s (some mac) (some index) (some src) (some target) e e' =
      elim (Bool-cases (succeeds s)) [
        | inl y ↦ rw (y, e, e') (monitor_pcap-request_frame qt mac src target, tt)
        | inr n ↦ rw n tt
      ]

  frames_of-ReadBack :
      (r : Arguments) (s : System) (o : Outcome (List Call))
      → Effect r s o
      → All (ReadBack s) (frames_of o)
  frames_of-ReadBack r s _ (faulted h) = tt
  frames_of-ReadBack r s _ (traced calls _ _ _ _ _ frames) =
      subst (All (ReadBack s)) (sym frames) (
        expected_frames-ReadBack s s.hardware_address s.interface_index s.source s.target refl refl)

  -- Whatever the arguments, the memory and the results of the system calls: every frame that
  -- sendArpPacket sends, captured whole, is read by MonitorPcap as ARP with the source address and
  -- the hardware address that the system calls gave.
  pub send_arp_packet-ReadBack :
      (r : Arguments) (s : System) → All (ReadBack s) (frames_of (send_arp_packet r s))
  send_arp_packet-ReadBack r s = frames_of-ReadBack r s _ (send_arp_packet-Effect r s)
