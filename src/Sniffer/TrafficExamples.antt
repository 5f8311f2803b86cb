-- ===== src/Sniffer/TrafficExamples.antt =====
-- The sniffer on whole, cut and foreign packets, and the theorems at them.
use ot_tcp_listener.Prelude.{List, [], ◌∷◌, ◌++◌, map, false, true, ◌≡◌, refl, Bytes, replicate}
use ot_tcp_listener.Prelude.Outcome.{ok, fault, out_of_bounds}
use ot_tcp_listener.Qt.Sample.{sample}
use ot_tcp_listener.Sniffer.{too_short, failed, other_type, run}
use ot_tcp_listener.Sniffer.Ip.{process_ip_packet}
use ot_tcp_listener.Sniffer.Extent.{extent, process_ip_packet-extent}
use ot_tcp_listener.Sniffer.Observed.{Poll, heard, failing, round_of, observe_all, run-observe_all}

-- The Ethernet header of an IPv4 packet and 6 more bytes, of 60 on the wire: the addresses are not
-- in the capture.
abbrev cut_bytes : Bytes
cut_bytes = replicate 12 0 ++ 8 ∷ 0 ∷ 0x45 ∷ 0 ∷ 0 ∷ 46 ∷ 0 ∷ 0 ∷ []

cut_extent : extent 60 cut_bytes ≡ 47
cut_extent = refl

process_ip_packet-extent_example : process_ip_packet sample 60 cut_bytes ≡ fault out_of_bounds
process_ip_packet-extent_example = process_ip_packet-extent sample 60 cut_bytes

-- A packet of another type, one that is too short, and two calls that give no packet.
abbrev traffic : List Poll
traffic =
    heard (record { len = 60; bytes = replicate 12 0 ++ 0x86 ∷ 0xdd ∷ [] })
    ∷ failing 0
    ∷ heard (record { len = 13; bytes = replicate 13 0 })
    ∷ []

traffic_observed : observe_all sample traffic ≡ ok (other_type ∷ failed ∷ too_short ∷ [])
traffic_observed = refl

run-observe_all_example :
    run sample true false
      (map round_of (traffic ++ heard (record { len = 60; bytes = cut_bytes }) ∷ traffic))
    ≡ fault out_of_bounds
run-observe_all_example =
    run-observe_all sample (traffic ++ heard (record { len = 60; bytes = cut_bytes }) ∷ traffic)
