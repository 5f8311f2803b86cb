-- ===== src/Sniffer/Session.antt =====
-- A whole run of Sniffer::run over the frames of a session.
use ot_tcp_listener.Prelude.{
  ℕ, ◌≤◌, true, false, List, [], ◌∷◌, map, some, ◌≡◌, refl, ◌⊎◌, All, codes, length,
}
use ot_tcp_listener.Prelude.Int.{pos}
use ot_tcp_listener.Prelude.Outcome.{ok}
use ot_tcp_listener.Qt.{Qt}
use ot_tcp_listener.Net.{ethertype_ip}
use ot_tcp_listener.Modbus.Registers.{read_response}
use ot_tcp_listener.Modbus.Stream.{ModbusUnit, unit_bytes}
use ot_tcp_listener.Sniffer.{Seen, ip, Turn, monitor_pcap, run_loop, run}
use ot_tcp_listener.Sniffer.Ip.{modbus_packet}
use ot_tcp_listener.Sniffer.Frames.{Frame, IsFrame, frame_bytes, frame_report, has_modbus_port}
use ot_tcp_listener.Sniffer.EndToEnd.{captured, response_texts, monitor_pcap_response}

-- A frame with one Modbus unit that tells the values `registers` to a read of them.
pub record Response : Type 0 where
  pub frame : Frame
  pub answer : ModbusUnit
  pub function : ℕ
  pub registers : List ℕ

pub record IsResponse (r : Response) : Type 0 where
  pub well_formed : IsFrame r.frame
  pub is_ip : r.frame.ethernet.ether_type ≡ ethertype_ip
  pub port : has_modbus_port r.frame ≡ true
  pub payload : r.frame.payload ≡ unit_bytes r.answer
  pub pdu : r.answer.pdu ≡ read_response r.function r.registers
  pub reads : (r.function ≡ 3) ⊎ (r.function ≡ 4)
  pub size : 4 ≤ length r.registers

-- A round in which the frame is captured and nobody calls stopLoop.
abbrev pub heard : Response → Turn
heard r = record { stop_before = false; stop_between = false; capture = captured r.frame }

abbrev pub report_of : Qt → Response → Seen
report_of qt r = ip (
    modbus_packet (record (frame_report qt r.frame (pos (length (frame_bytes r.frame)))) {
      modbus = some (qt.join (response_texts qt r.answer r.function r.registers) (codes ";"));
    }))

module _ (qt : Qt) where
  monitor_pcap-report_of :
      (r : Response) → IsResponse r → monitor_pcap qt false (captured r.frame) ≡ ok (report_of qt r)
  monitor_pcap-report_of r h =
      monitor_pcap_response qt r.answer r.function r.registers r.frame h.well_formed h.is_ip h.port
        h.payload h.pdu h.reads h.size

  run_loop-heard :
      (rs : List Response)
      → All IsResponse rs
      → run_loop qt false (map heard rs) ≡ ok (map (report_of qt) rs, false)
  unfolding run_loop
  run_loop-heard [] h = refl
  run_loop-heard (r ∷ rs) h = rw (monitor_pcap-report_of r h.0, run_loop-heard rs h.1)

  -- A run of Sniffer::run over a session of well-formed IPv4 frames that are captured whole, each
  -- from or to the Modbus port and with one unit that answers a read of four or more registers,
  -- reports every frame, in order, with its addresses, ports and size and one text for each
  -- register.
  pub run-heard :
      (rs : List Response)
      → All IsResponse rs
      → run qt true false (map heard rs) ≡ ok (map (report_of qt) rs, false)
  unfolding run
  run-heard rs h = run_loop-heard rs h
