-- ===== src/Sniffer/Examples.antt =====
-- A captured Modbus response, its variants, and the theorems at them.
use ot_tcp_listener.Prelude.Outcome.{copy}
use ot_tcp_listener.Prelude.{
  ◌^◌, ◌+◌, ◌-◌, true, ◌-◌, false, ◌&&◌, [], ◌∷◌, Option, none, some, ◌≡◌, List, refl, Text, codes,
  length, arith, if◌then◌else◌, ltb,
}
use ot_tcp_listener.Prelude.Int.{pos, negsuc, int32}
use ot_tcp_listener.Prelude.Outcome.{ok, fault, ◌>>=◌, dangling}
use ot_tcp_listener.Qt.Sample.{sample}
use ot_tcp_listener.Net.{Ip}
use ot_tcp_listener.NetworkTools.{text_eq}
use ot_tcp_listener.NetworkTools.Address.{mask24}
use ot_tcp_listener.Sniffer.{inspect, Turn, monitor_pcap, run_loop}
use ot_tcp_listener.Sniffer.Ip.{
  not_modbus, modbus_packet, payload_len, process_payload, process_ip_packet,
}
use ot_tcp_listener.Sniffer.Frames.{
  Frame, IsFrame, frame_bytes, frame_report, payload_offset, has_modbus_port,
}
use ot_tcp_listener.Sniffer.Headers.{process_ip_packet-frame}
use ot_tcp_listener.Sniffer.Payload.{process_ip_packet_padding}
use ot_tcp_listener.Sniffer.Segment.{segment_ip_list, ArpTurn, arp_loop}
use ot_tcp_listener.Sniffer.Sweep.{hosts}
use ot_tcp_listener.Sniffer.ArpLoop.{HasBlocks, AsksAll, arp_loop-segment}
use ot_tcp_listener.Arp.{Call}
use ot_tcp_listener.Arp.Sample.{working}
use ot_tcp_listener.Net.CString.{c_string}
use ot_tcp_listener.Sniffer.ResponseSample.{response_frame, response_frame-IsFrame}

-- A segment that carries nothing, with the padding of a short frame.
abbrev padded_frame : Frame
padded_frame = record response_frame { payload = 0 ∷ 0 ∷ 0 ∷ 0 ∷ 0 ∷ 0 ∷ [] }

padded_frame-IsFrame : IsFrame padded_frame
padded_frame-IsFrame = omega arith

process_ip_packet-frame_example : process_ip_packet sample 75 (frame_bytes response_frame) ≡ (
    if has_modbus_port response_frame && ltb (payload_offset response_frame) 75
    then process_payload sample
        (frame_bytes response_frame)
        (payload_offset response_frame)
        (75 - payload_offset response_frame)
        (frame_report sample response_frame (pos 75))
    else ok not_modbus)
unfolding payload_len int32 process_payload copy
process_ip_packet-frame_example =
    process_ip_packet-frame sample response_frame response_frame-IsFrame 75

-- A size that an `int` takes for a negative number, and one of which it keeps too much.
payload_len_wraps : (payload_len (2 ^ 31 + 75) 58 ≡ 0) × (payload_len (2 ^ 31 + 57) 58 ≡ 2 ^ 31 - 1)
unfolding payload_len int32
payload_len_wraps = (refl, refl)

process_ip_packet_padding_example :
    let len = length (frame_bytes padded_frame) in
    process_ip_packet sample len (frame_bytes padded_frame)
    ≡ ok (
        modbus_packet (record (frame_report sample padded_frame (pos len)) {
          modbus = some (
              sample.join
                (sample.arg (codes "Transaction Id:%1") (sample.number (pos 0))
                  ∷ sample.arg (codes "Lenght:%1") (sample.number (negsuc 0))
                  ∷ sample.arg (codes "Hex:%1") (sample.to_hex [] b':')
                  ∷ [])
                (codes ";"));
        }))
process_ip_packet_padding_example =
    process_ip_packet_padding sample padded_frame padded_frame-IsFrame refl refl

abbrev quiet : Turn
quiet = record {
  stop_before = false;
  stop_between = false;
  capture = record { packet_count = negsuc 0; header = none; packet = none };
}

abbrev host : Ip
host = record { a = 192; b = 168; c = 1; d = 77 }

-- A stand-in for inet_pton that knows one mask and one address.
abbrev pton : Text → Option Ip
pton t = if text_eq t (codes "255.255.255.0") then some mask24 else some host

-- A round in a network in which every call succeeds, and one in which the thread is stopped.
abbrev arp_round : ArpTurn
arp_round = record { stopped = false; network = λ r. working }

abbrev arp_stop : ArpTurn
arp_stop = record arp_round { stopped = true }

blocks_there : HasBlocks arp_round
blocks_there r = refl

abbrev rounds_run : List ArpTurn
rounds_run = arp_round ∷ arp_round ∷ arp_stop ∷ arp_round ∷ []

arp_loop-segment_example :
    (passes : List (List (List Call) × Text)) × ((segment_ip_list pton (codes "192.168.1.77")
        >>= λ ips. arp_loop (codes "192.168.1.77") (codes "eth0") ips rounds_run)
      ≡ ok passes)
    × AsksAll
        (codes "192.168.1.77")
        (codes "eth0")
        (hosts host 256 0)
        ((λ r. working) ∷ (λ r. working) ∷ [])
        passes
unfolding c_string
arp_loop-segment_example =
    arp_loop-segment (codes "192.168.1.77") (codes "eth0") (omega arith) (omega arith) host
      (omega arith) (omega arith) pton rounds_run
      (blocks_there, (blocks_there, (blocks_there, (blocks_there, tt)))) refl refl

-- A round in which no packet arrives in time.
abbrev timing_out : Turn
timing_out = record quiet {
  capture = record { packet_count = pos 0; header = none; packet = none };
}

timeout_run : run_loop sample false (quiet ∷ timing_out ∷ quiet ∷ []) ≡ fault dangling
unfolding run_loop monitor_pcap inspect
timeout_run = refl
