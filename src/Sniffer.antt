-- ===== src/Sniffer.antt =====
-- The packet side of sniffer.cpp: Sniffer::MonitorPcap and Sniffer::run. libpcap is not part of the
-- repository: what pcap_next_ex gives is an argument of each call.
pub mod Ip
pub mod Arp
pub mod Frames
pub mod Headers
pub mod Payload
pub mod Fields
pub mod Extent
pub mod Observed
pub mod EndToEnd
pub mod Loop
pub mod Session
pub mod Printed
pub mod Setup
pub mod SetupSample
pub mod ResponseSample
pub mod Segment
pub mod Sweep
pub mod ArpLoop
mod Examples
mod TrafficExamples
use ot_tcp_listener.Prelude.{
  ℕ, Bool, true, false, ◌||◌, List, [], ◌∷◌, Option, none, some, Bytes, Text, ltb, ◌==◌,
  if◌then◌else◌,
}
use ot_tcp_listener.Prelude.Int.{ℤ, pos, negsuc}
use ot_tcp_listener.Prelude.Outcome.{Outcome, ok, fault, dangling, or_fault, ◌>>=◌}
use ot_tcp_listener.Qt.{Qt}
use ot_tcp_listener.Net.{ether_header_size, ethertype_ip, ethertype_arp, read_word}
use Ip.{Verdict, process_ip_packet}
use Arp.{process_arp_packet}

-- struct pcap_pkthdr
pub record PcapHeader : Type 0 where
  pub caplen : ℕ
  pub len : ℕ

-- The result of pcap_next_ex and what it stored through its two pointers; `none` is a pointer that
-- it left as it was, uninitialised.
pub record Capture : Type 0 where
  pub packet_count : ℤ
  pub header : Option PcapHeader
  pub packet : Option Bytes

-- How a call of MonitorPcap ends.
pub data Seen : Type 0 where
  stopped : Seen
  failed : Seen
  too_short : Seen
  ip : Verdict → Seen
  arp : Option (Text × Text) → Seen
  other_type : Seen

-- One round of the loop in Sniffer::run: whether another thread has called stopLoop before the
-- round's test, whether one does so between the test and that of MonitorPcap, and what is captured. A
-- call after the test of MonitorPcap is one before the next round's test.
pub record Turn : Type 0 where
  pub stop_before : Bool
  pub stop_between : Bool
  pub capture : Capture

module _ (qt : Qt) where
  -- The branches on `type`.
  unfoldable pub dispatch : ℕ → PcapHeader → Bytes → Outcome Seen
  dispatch type header packet =
      let ip_case = do v ← process_ip_packet qt header.len packet; ok (ip v)
      in let arp_case = do a ← process_arp_packet packet; ok (arp a)
        in if type == ethertype_ip
          then ip_case
          else if type == ethertype_arp
          then arp_case
          else ok other_type

  -- What follows the call of pcap_next_ex, if its result is not negative.
  unfoldable pub inspect : Option PcapHeader → Option Bytes → Outcome Seen
  inspect header packet = do
    h ← or_fault dangling header
    let examine = do p ← or_fault dangling packet; type ← read_word p 12; dispatch type h p
    if ltb h.caplen ether_header_size then ok too_short else examine

  -- The first argument is `m_stop`.
  unfoldable pub monitor_pcap : Bool → Capture → Outcome Seen
  monitor_pcap true capture = ok stopped
  monitor_pcap false capture = elim capture.packet_count [
    | negsuc n ↦ ok failed
    | pos n ↦ inspect capture.header capture.packet
  ]

  -- The loop over the rounds that the schedule gives it: what was seen, and `m_stop` at the end.
  unfoldable pub run_loop : Bool → List Turn → Outcome (List Seen × Bool)
  run_loop m_stop [] = ok ([], m_stop)
  run_loop m_stop (t ∷ turns) =
      let round = do
        seen ← monitor_pcap t.stop_between t.capture
        (more, m_stop') ← run_loop t.stop_between turns
        ok (seen ∷ more, m_stop')
      in if m_stop || t.stop_before then ok ([], true) else round

  -- Sniffer::run; the first argument says whether `handle` is set.
  unfoldable pub run : Bool → Bool → List Turn → Outcome (List Seen × Bool)
  run false m_stop turns = ok ([], m_stop)
  run true m_stop turns = run_loop m_stop turns
