-- ===== src/Sniffer/EndToEnd.antt =====
-- From a captured frame to the report of the Modbus values in it.
use ot_tcp_listener.Prelude.{
  ℕ, suc, ◌+◌, ◌*◌, ◌/◌, ◌%◌, ◌≤◌, ◌<◌, true, false, List, [], ◌∷◌, ◌++◌, some, ◌≡◌, ◌∙◌, ap, ◌⊎◌,
  Text, codes, length, arith, le→ltb_false,
}
use ot_tcp_listener.Prelude.Int.{pos, sub_ℕ}
use ot_tcp_listener.Prelude.Outcome.{ok, ◌>>=◌}
use ot_tcp_listener.Qt.{Qt}
use ot_tcp_listener.Net.{ethertype_ip, ether_header_size, read_word}
use ot_tcp_listener.Modbus.{
  init, is_empty, unit_texts, analyze_modbus_packet, process_modbus_packet, function_name,
}
use ot_tcp_listener.Modbus.Registers.{read_response, response_text, analyze-read_response}
use ot_tcp_listener.Modbus.Stream.{ModbusUnit, unit_bytes, process_modbus_packet-stream}
use ot_tcp_listener.Sniffer.{Capture, ip, monitor_pcap, inspect, dispatch}
use ot_tcp_listener.Sniffer.Ip.{modbus_packet, process_ip_packet}
use ot_tcp_listener.Sniffer.Frames.{
  Frame, IsFrame, frame_bytes, frame_report, has_modbus_port, length-frame_bytes,
}
use ot_tcp_listener.Sniffer.Payload.{process_ip_packet_whole}

-- What libpcap gives for a frame that it captured whole.
abbrev pub captured : Frame → Capture
captured f =
    let n = length (frame_bytes f) in
    record {
      packet_count = pos 1;
      header = some (record { caplen = n; len = n });
      packet = some (frame_bytes f);
    }

read_type : (f : Frame) → read_word (frame_bytes f) 12 ≡ ok f.ethernet.ether_type
unfolding frame_bytes
read_type f =
    let same : f.ethernet.ether_type / 256 * 256 + f.ethernet.ether_type % 256
        ≡ f.ethernet.ether_type =
      omega arith in
    ap ok same

-- An IPv4 frame gets to the IP handler, with its size on the wire.
monitor_pcap_ip :
    (qt : Qt) (f : Frame)
    → f.ethernet.ether_type ≡ ethertype_ip
    → monitor_pcap qt false (captured f)
      ≡ (process_ip_packet qt (length (frame_bytes f)) (frame_bytes f) >>= λ v. ok (ip v))
unfolding monitor_pcap inspect dispatch
monitor_pcap_ip qt f type = rw (
  le→ltb_false (length (frame_bytes f)) ether_header_size (omega (arith, length-frame_bytes f)),
  read_type f,
  type,
)

-- The text of a response is never empty: it tells the function at least.
response_text-is_empty :
    (qt : Qt) (function base : ℕ) (ws : List ℕ)
    → is_empty (response_text qt function base ws) ≡ false
response_text-is_empty qt function base [] =
    rw (qt.join-singleton (codes "Function:" ++ function_name function) (codes ";"))
response_text-is_empty qt function base (w ∷ ws) = rw qt.join-cons

abbrev pub response_texts : Qt → ModbusUnit → ℕ → List ℕ → List Text
response_texts qt u function ws =
    qt.arg (codes "Transaction Id:%1") (qt.number (pos u.transaction))
    ∷ qt.arg (codes "Lenght:%1") (qt.number (sub_ℕ (length u.pdu + 1) 1))
    ∷ qt.arg (codes "Hex:%1") (qt.to_hex u.pdu b':')
    ∷ response_text qt function 0 ws
    ∷ []

module _ (qt : Qt) (u : ModbusUnit) (function : ℕ) (ws : List ℕ) where
  tell_response :
      u.pdu ≡ read_response function ws
      → (function ≡ 3) ⊎ (function ≡ 4)
      → 4 ≤ length ws
      → process_modbus_packet qt (suc (length (unit_bytes u))) init (unit_bytes u)
        ≡ ok (init, some (qt.join (response_texts qt u function ws) (codes ";")))
  unfolding unit_texts
  tell_response pdu f h =
      let analysis : analyze_modbus_packet qt init u.pdu (pos (length u.pdu))
          ≡ ok (response_text qt function 0 ws, init) =
        rw pdu (analyze-read_response qt init function ws f h) in
      process_modbus_packet-stream qt [] u (suc (length (unit_bytes u))) init (omega arith)
      ∙ rw (analysis, response_text-is_empty qt function 0 ws)

  -- A well-formed IPv4 frame captured whole, from or to the Modbus port, whose payload is one unit
  -- that answers a read of four or more registers, is reported by MonitorPcap with its addresses,
  -- ports and size, and with one text for each register; the registers are numbered from 0.
  pub monitor_pcap_response :
      (f : Frame)
      → IsFrame f
      → f.ethernet.ether_type ≡ ethertype_ip
      → has_modbus_port f ≡ true
      → f.payload ≡ unit_bytes u
      → u.pdu ≡ read_response function ws
      → (function ≡ 3) ⊎ (function ≡ 4)
      → 4 ≤ length ws
      → monitor_pcap qt false (captured f)
        ≡ ok (
            ip (
              modbus_packet (record (frame_report qt f (pos (length (frame_bytes f)))) {
                modbus = some (qt.join (response_texts qt u function ws) (codes ";"));
              })))
  monitor_pcap_response f h type port payload pdu code size =
      let some_payload : 0 < length f.payload = rw payload (omega arith) in
      rw (
        monitor_pcap_ip qt f type,
        process_ip_packet_whole qt f h port some_payload,
        payload,
        tell_response pdu code size,
      )
