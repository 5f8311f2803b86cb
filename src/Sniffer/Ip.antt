-- ===== src/Sniffer/Ip.antt =====
-- Sniffer::processIpPacket of sniffer.cpp. A captured packet is the list of its `caplen` bytes,
-- fewer than 2^31; the size on the wire is any number, of which an `int` keeps the low 32 bits.
use ot_tcp_listener.Prelude.{
  ℕ, suc, ◌+◌, ◌-◌, ◌*◌, ◌/◌, ◌%◌, ◌^◌, not, ◌&&◌, ◌||◌, List, [], ◌∷◌, ◌++◌, Option, none, map,
  Bytes, Text, codes, ltb, ◌==◌, if◌then◌else◌, ◌<◌, ◌≡◌, arith,
}
use mathlib.Core.Option
use ot_tcp_listener.Prelude.Int.{pos, int32, rounds}
use ot_tcp_listener.Prelude.Outcome.{Outcome, ok, ◌>>=◌, read, copy}
use ot_tcp_listener.Qt.{Qt}
use ot_tcp_listener.Net.{
  Ip, Mac, ether_header_size, port_mbtcp, inet_ntoa, ether_ntoa, read_word, read_ip, read_mac,
}
use ot_tcp_listener.Modbus.{process_modbus_packet}
use ot_tcp_listener.Modbus

-- The member `_data` with what `modbus_data` adds to it: a field for each key of `j_data`.
pub record Report : Type 0 where
  pub src_ip : Text
  pub dst_ip : Text
  pub src_mac : Text
  pub dst_mac : Text
  pub src_port : Text
  pub dst_port : Text
  pub packet_type : Text
  pub packet_len : Text
  pub modbus : Option Text

-- How the handler ends.
pub data Verdict : Type 0 where
  invalid_ip_header : ℕ → Verdict
  invalid_tcp_header : ℕ → Verdict
  -- no Modbus port, or no payload
  not_modbus : Verdict
  modbus_packet : Report → Verdict

-- `packet_type`, by the ports
unfoldable pub packet_type_of : ℕ → ℕ → Text
packet_type_of src_port dst_port =
    if src_port == port_mbtcp && not (dst_port == port_mbtcp)
    then codes "Modbus Response Packet"
    else if not (src_port == port_mbtcp) && dst_port == port_mbtcp
    then codes "Modbus Query Packet"
    else []

-- `_data` once the addresses are known.
abbrev pub addressed : Ip → Ip → Mac → Mac → Report
addressed src_ip dst_ip src_mac dst_mac = record {
  src_ip = inet_ntoa src_ip;
  dst_ip = inet_ntoa dst_ip;
  src_mac = ether_ntoa src_mac;
  dst_mac = ether_ntoa dst_mac;
  src_port = [];
  dst_port = [];
  packet_type = [];
  packet_len = [];
  modbus = none;
}

-- `payload_len` where it is above 0: the difference of a `size_t` from `packet_len`, as an `int`. The
-- headers have fewer than 2^32 bytes.
unfoldable pub payload_len : ℕ → ℕ → ℕ
payload_len packet_len offset = rounds (int32 (packet_len + 2 ^ 32 - offset))

module _ (qt : Qt) where
  -- The branch of the Modbus port: `offset` is where the payload of `count` bytes starts. The
  -- Modbus object is a new one for each packet, and the fuel is above the size of the payload.
  unfoldable pub process_payload : Bytes → ℕ → ℕ → Report → Outcome Verdict
  process_payload packet offset count data' = do
    payload ← copy count offset packet
    (modbus, text) ← process_modbus_packet qt (suc count) Modbus.init payload
    ok (modbus_packet (record data' { modbus = text }))

  -- What follows the check of the TCP header's length.
  unfoldable pub process_tcp : ℕ → Bytes → ℕ → ℕ → Report → Outcome Verdict
  process_tcp packet_len packet tcp size_tcp addresses = do
    src_port ← read_word packet tcp
    dst_port ← read_word packet (tcp + 2)
    let offset = tcp + size_tcp
    let data' = record addresses {
      src_port = qt.number (pos src_port);
      dst_port = qt.number (pos dst_port);
      packet_type = packet_type_of src_port dst_port;
      packet_len = qt.number (int32 packet_len);
    }
    let payload = process_payload packet offset (payload_len packet_len offset) data'
    if (dst_port == port_mbtcp || src_port == port_mbtcp) && ltb 0 (payload_len packet_len offset)
        then payload
        else ok not_modbus

  -- What follows the check of the IP header's length.
  unfoldable pub process_ip : ℕ → Bytes → ℕ → Outcome Verdict
  process_ip packet_len packet size_ip = do
    src_ip ← read_ip packet (ether_header_size + 12)
    dst_ip ← read_ip packet (ether_header_size + 16)
    src_mac ← read_mac packet 6
    dst_mac ← read_mac packet 0
    let tcp = ether_header_size + size_ip
    offx2 ← read packet (tcp + 12)
    let size_tcp = offx2 / 16 % 16 * 4
    let rest = process_tcp packet_len packet tcp size_tcp (addressed src_ip dst_ip src_mac dst_mac)
    if ltb size_tcp 20 then ok (invalid_tcp_header size_tcp) else rest

  -- `packet_len` is `header->len`, the size on the wire, and `packet` what was captured.
  unfoldable pub process_ip_packet : ℕ → Bytes → Outcome Verdict
  process_ip_packet packet_len packet = do
    vhl ← read packet ether_header_size
    let size_ip = vhl % 16 * 4
    let rest = process_ip packet_len packet size_ip
    if ltb size_ip 20 then ok (invalid_ip_header size_ip) else rest

  -- The lines that the handler writes with qDebug, each by the texts that it streams.
  unfoldable pub report_lines : Report → List (List Text)
  report_lines r =
      (codes "Source Ip" ∷ codes "\t" ∷ r.src_ip ∷ [])
      ∷ (codes "Dest Ip" ∷ codes "\t" ∷ r.dst_ip ∷ [])
      ∷ (codes "Source Mac" ∷ codes "\t" ∷ r.src_mac ∷ [])
      ∷ (codes "Dest Mac" ∷ codes "\t" ∷ r.dst_mac ∷ [])
      ∷ (codes "Source Port" ∷ codes "\t" ∷ r.src_port ∷ [])
      ∷ (codes "Dest Port" ∷ codes "\t" ∷ r.dst_port ∷ [])
      ∷ (codes "Packet Type" ∷ codes "\t" ∷ r.packet_type ∷ [])
      ∷ (codes "Packet Lenght" ∷ codes "\t" ∷ r.packet_len ∷ [])
      ∷ (map (λ (piece : Text). codes "\t" ∷ piece ∷ [])
            (qt.split (Option.get_or r.modbus []) (codes ";"))
          ++ (codes "" ∷ []) ∷ [])

-- On a packet of fewer than 2^31 bytes the payload is what is behind the headers.
pub payload_len_small :
    (packet_len offset : ℕ)
    → packet_len < 2 ^ 31
    → offset < 2 ^ 31
    → payload_len packet_len offset ≡ packet_len - offset
unfolding payload_len int32
payload_len_small packet_len offset h k = ground arith
