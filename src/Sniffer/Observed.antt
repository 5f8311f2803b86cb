-- ===== src/Sniffer/Observed.antt =====
-- Sniffer::MonitorPcap and the loop of Sniffer::run on any traffic at all: what a packet needs to
-- be there, and what is made of it.
use ot_tcp_listener.Prelude.{
  ℕ, ◌+◌, ◌&&◌, ◌||◌, Bool, true, false, List, [], ◌∷◌, map, Option, none, some, ◌≡◌, inl, inr,
  refl, Bytes, Text, length, ltb, ◌==◌, if◌then◌else◌, arith, Bool-cases,
}
use ot_tcp_listener.Prelude.Int.{pos, negsuc}
use ot_tcp_listener.Prelude.Outcome.{Outcome, ok, fault, dangling, out_of_bounds, ◌>>=◌}
use ot_tcp_listener.Qt.{Qt}
use ot_tcp_listener.Net.{ether_header_size, ethertype_ip, ethertype_arp, inet_ntoa}
use ot_tcp_listener.Sniffer.{
  Capture, Seen, failed, too_short, ip, arp, other_type, Turn, monitor_pcap, inspect, dispatch,
  run_loop, run,
}
use ot_tcp_listener.Sniffer.Arp.{arp_request, arp_reply, mac_text, process_arp_packet}
use ot_tcp_listener.Sniffer.Fields.{
  word_at, ip_at, mac_at, read_word-word_at, read_ip-ip_at, read_mac-mac_at, read_word_past,
  read_ip_past,
}
use ot_tcp_listener.Sniffer.Extent.{extent, tell_packet, process_ip_packet-extent}

-- A packet by its size on the wire and the bytes of it that were captured.
pub record Packet : Type 0 where
  pub len : ℕ
  pub bytes : Bytes

-- Of a request or a reply for IPv4 the addresses are read.
abbrev pub has_addresses : Bytes → Bool
has_addresses p =
    let op = word_at p (ether_header_size + 6) in
    (op == arp_request || op == arp_reply) && word_at p (ether_header_size + 2) == ethertype_ip

abbrev pub arp_extent : Bytes → ℕ
arp_extent p = ether_header_size + (if has_addresses p then 18 else 8)

abbrev pub tell_arp : Bytes → Option (Text × Text)
tell_arp p =
    if has_addresses p
    then some
        (inet_ntoa (ip_at p (ether_header_size + 14)), mac_text (mac_at p (ether_header_size + 8)))
    else none

process_arp_packet-tell_arp :
    (p : Bytes)
    → process_arp_packet p
      ≡ (if ltb (length p) (arp_extent p) then fault out_of_bounds else ok (tell_arp p))
unfolding process_arp_packet
process_arp_packet-tell_arp p = elim (Bool-cases (ltb (length p) (ether_header_size + 8))) [
  | inl short ↦
      let past = read_word_past p (ether_header_size + 6) (ground arith) in
      let needs : ltb (length p) (arp_extent p) ≡ true = ground arith in rw (past, needs)
  | inr there ↦
      let op = read_word-word_at p (ether_header_size + 6) (ground arith) in
      let pro = read_word-word_at p (ether_header_size + 2) (ground arith) in
      elim (Bool-cases (has_addresses p)) [
        | inl known ↦ elim (Bool-cases (ltb (length p) (ether_header_size + 18))) [
          | inl short ↦
              let past = read_ip_past p (ether_header_size + 14) (ground arith) in
              rw (op, known, short) (ground (arith, pro, past))
          | inr whole ↦
              let spa = read_ip-ip_at p (ether_header_size + 14) (ground arith) in
              let sha = read_mac-mac_at p (ether_header_size + 8) (ground arith) in
              rw (op, known, whole) (ground (arith, pro, spa, sha))
        ]
        | inr none_known ↦ rw (op, none_known, there) (ground (arith, pro))
      ]
]

-- How many bytes of a packet MonitorPcap needs.
abbrev pub needed : Packet → ℕ
needed k =
    if word_at k.bytes 12 == ethertype_ip
    then extent k.len k.bytes
    else if word_at k.bytes 12 == ethertype_arp
    then arp_extent k.bytes
    else ether_header_size

-- What a call of pcap_next_ex comes to.
pub data Poll : Type 0 where
  heard : Packet → Poll
  -- the result 0, with nothing stored
  timed_out : Poll
  -- the result -(n + 1)
  failing : ℕ → Poll

abbrev pub capture_of : Poll → Capture
capture_of (heard k) = record {
  packet_count = pos 1;
  header = some (record { caplen = length k.bytes; len = k.len });
  packet = some k.bytes;
}
capture_of timed_out = record { packet_count = pos 0; header = none; packet = none }
capture_of (failing n) = record { packet_count = negsuc n; header = none; packet = none }

-- A round in which nobody calls stopLoop.
abbrev pub round_of : Poll → Turn
round_of k = record { stop_before = false; stop_between = false; capture = capture_of k }

module _ (qt : Qt) where
  -- Only the Ethernet header is checked to be there.
  abbrev pub observe : Packet → Outcome Seen
  observe k =
      let ip_case = tell_packet qt k.len k.bytes >>= λ v. ok (ip v) in
      if ltb (length k.bytes) ether_header_size
      then ok too_short
      else if ltb (length k.bytes) (needed k)
      then fault out_of_bounds
      else if word_at k.bytes 12 == ethertype_ip
      then ip_case
      else if word_at k.bytes 12 == ethertype_arp
      then ok (arp (tell_arp k.bytes))
      else ok other_type

  abbrev pub observe_poll : Poll → Outcome Seen
  observe_poll (heard k) = observe k
  observe_poll timed_out = fault dangling
  observe_poll (failing n) = ok failed

  monitor_pcap-observe : (k : Packet) → monitor_pcap qt false (capture_of (heard k)) ≡ observe k
  unfolding monitor_pcap inspect dispatch
  monitor_pcap-observe k = elim (Bool-cases (ltb (length k.bytes) ether_header_size)) [
    | inl short ↦ rw short
    | inr there ↦
        let type = read_word-word_at k.bytes 12 (ground arith) in
        rw
          (
            there,
            type,
            process_ip_packet-extent qt k.len k.bytes,
            process_arp_packet-tell_arp k.bytes,
          )
          (ground arith)
  ]

  -- MonitorPcap makes of every result of pcap_next_ex what is observed of it.
  pub monitor_pcap-observe_poll : (k : Poll) → monitor_pcap qt false (capture_of k) ≡ observe_poll k
  unfolding monitor_pcap inspect
  monitor_pcap-observe_poll (heard k) = monitor_pcap-observe k
  monitor_pcap-observe_poll timed_out = refl
  monitor_pcap-observe_poll (failing n) = refl

  -- The results one after the other, up to the first fault.
  abbrev pub observe_all : List Poll → Outcome (List Seen)
  observe_all [] = ok []
  observe_all (k ∷ ks) = do seen ← observe_poll k; more ← observe_all ks; ok (seen ∷ more)

  run_loop-observe_all :
      (ks : List Poll)
      → run_loop qt false (map round_of ks) ≡ (observe_all ks >>= λ seen. ok (seen, false))
  unfolding run_loop
  run_loop-observe_all [] = refl
  run_loop-observe_all (k ∷ ks) =
      rw (monitor_pcap-observe_poll k, run_loop-observe_all ks) (ground arith)

  -- For every sequence of results of pcap_next_ex, each any packet of any captured bytes, or the
  -- result 0 with nothing stored, or a negative one, a run of Sniffer::run in which nobody calls
  -- stopLoop does what is observed of them, in order, up to the first fault: a packet of fewer
  -- than 14 bytes is left alone, one of which fewer bytes were captured than its headers and its
  -- size call for is read past its end, any other IPv4 packet is reported by its headers with what
  -- its decoded payload tells, the two addresses of an ARP request or reply for IPv4 are read,
  -- every other packet is left alone, and the result 0 follows a pointer that was never set.
  pub run-observe_all :
      (ks : List Poll)
      → run qt true false (map round_of ks) ≡ (observe_all ks >>= λ seen. ok (seen, false))
  unfolding run
  run-observe_all ks = run_loop-observe_all ks
