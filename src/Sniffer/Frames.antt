-- ===== src/Sniffer/Frames.antt =====
-- Ethernet frames with IPv4 and TCP by the structs of helper.h, and what Sniffer::processIpPacket
-- makes of them.
use ot_tcp_listener.Prelude.{
  ℕ, suc, ◌+◌, ◌*◌, ◌/◌, ◌%◌, ◌^◌, ◌<◌, Bool, ◌||◌, [], ◌∷◌, ◌++◌, none, some, ◌≡◌, refl, sym, ◌∙◌,
  ap, Bytes, length, ◌==◌, arith, get_elem?, length-append, append_assoc, get_elem?-append_at,
}
use ot_tcp_listener.Prelude.Int.{ℤ, pos}
use ot_tcp_listener.Prelude.Outcome.{ok, read}
use ot_tcp_listener.Qt.{Qt}
use ot_tcp_listener.Net.{
  Ip, Mac, ether_header_size, read_word, read_ip, read_mac, ip_bytes, mac_bytes, port_mbtcp,
  inet_ntoa, ether_ntoa,
}
use ot_tcp_listener.Sniffer.Ip.{Report}
use ot_tcp_listener.Sniffer.Fields.{type_text}

-- struct sniff_ethernet
pub record SniffEthernet : Type 0 where
  pub ether_dhost : Mac
  pub ether_shost : Mac
  pub ether_type : ℕ

-- struct sniff_ip, with the two halves of `ip_vhl`
pub record SniffIp : Type 0 where
  pub ip_v : ℕ
  pub ip_hl : ℕ
  pub ip_tos : ℕ
  pub ip_len : ℕ
  pub ip_id : ℕ
  pub ip_off : ℕ
  pub ip_ttl : ℕ
  pub ip_p : ℕ
  pub ip_sum : ℕ
  pub ip_src : Ip
  pub ip_dst : Ip

-- struct sniff_tcp, with the two halves of `th_offx2`
pub record SniffTcp : Type 0 where
  pub th_sport : ℕ
  pub th_dport : ℕ
  pub th_seq : ℕ
  pub th_ack : ℕ
  pub th_off : ℕ
  pub th_x2 : ℕ
  pub th_flags : ℕ
  pub th_win : ℕ
  pub th_sum : ℕ
  pub th_urp : ℕ

pub record Frame : Type 0 where
  pub ethernet : SniffEthernet
  pub ip : SniffIp
  pub ip_options : Bytes
  pub tcp : SniffTcp
  pub tcp_options : Bytes
  pub payload : Bytes

abbrev pub ethernet_bytes : SniffEthernet → Bytes
ethernet_bytes e =
    mac_bytes e.ether_dhost
    ++ (mac_bytes e.ether_shost ++ (e.ether_type / 256) ∷ (e.ether_type % 256) ∷ [])

abbrev pub sniff_ip_bytes : SniffIp → Bytes
sniff_ip_bytes h =
    (h.ip_v * 16 + h.ip_hl)
    ∷ h.ip_tos
    ∷ (h.ip_len / 256)
    ∷ (h.ip_len % 256)
    ∷ (h.ip_id / 256)
    ∷ (h.ip_id % 256)
    ∷ (h.ip_off / 256)
    ∷ (h.ip_off % 256)
    ∷ h.ip_ttl
    ∷ h.ip_p
    ∷ (h.ip_sum / 256)
    ∷ (h.ip_sum % 256)
    ∷ (ip_bytes h.ip_src ++ ip_bytes h.ip_dst)

-- A 32-bit field, the high byte first.
abbrev pub long_bytes : ℕ → Bytes
long_bytes w = (w / 256 / 256 / 256) ∷ (w / 256 / 256 % 256) ∷ (w / 256 % 256) ∷ (w % 256) ∷ []

abbrev pub sniff_tcp_bytes : SniffTcp → Bytes
sniff_tcp_bytes h =
    (h.th_sport / 256)
    ∷ (h.th_sport % 256)
    ∷ (h.th_dport / 256)
    ∷ (h.th_dport % 256)
    ∷ (long_bytes h.th_seq
        ++ (long_bytes h.th_ack
            ++ (h.th_off * 16 + h.th_x2)
              ∷ h.th_flags
              ∷ (h.th_win / 256)
              ∷ (h.th_win % 256)
              ∷ (h.th_sum / 256)
              ∷ (h.th_sum % 256)
              ∷ (h.th_urp / 256)
              ∷ (h.th_urp % 256)
              ∷ []))

unfoldable pub frame_bytes : Frame → Bytes
frame_bytes f =
    ethernet_bytes f.ethernet
    ++ (sniff_ip_bytes f.ip
        ++ (f.ip_options ++ (sniff_tcp_bytes f.tcp ++ (f.tcp_options ++ f.payload))))

-- The header lengths, counted in words of four bytes, cover the options, and the payload is no longer
-- than an IPv4 packet can be.
pub record IsFrame (f : Frame) : Type 0 where
  pub ip_hl_fits : f.ip.ip_hl < 16
  pub th_off_fits : f.tcp.th_off < 16
  pub th_x2_fits : f.tcp.th_x2 < 16
  pub ip_covers : f.ip.ip_hl * 4 ≡ 20 + length f.ip_options
  pub tcp_covers : f.tcp.th_off * 4 ≡ 20 + length f.tcp_options
  pub payload_fits : length f.payload < 2 ^ 16

-- Where the payload starts.
abbrev pub payload_offset : Frame → ℕ
payload_offset f = 54 + length f.ip_options + length f.tcp_options

-- What the headers of a frame say, with the size `len` that it had on the wire as an `int`.
abbrev pub frame_report : Qt → Frame → ℤ → Report
frame_report qt f len = record {
  src_ip = inet_ntoa f.ip.ip_src;
  dst_ip = inet_ntoa f.ip.ip_dst;
  src_mac = ether_ntoa f.ethernet.ether_shost;
  dst_mac = ether_ntoa f.ethernet.ether_dhost;
  src_port = qt.number (pos f.tcp.th_sport);
  dst_port = qt.number (pos f.tcp.th_dport);
  packet_type = type_text f.tcp.th_sport f.tcp.th_dport;
  packet_len = qt.number len;
  modbus = none;
}

abbrev pub has_modbus_port : Frame → Bool
has_modbus_port f = f.tcp.th_dport == port_mbtcp || f.tcp.th_sport == port_mbtcp

module _ (f : Frame) where
  abbrev segment : Bytes
  segment = sniff_tcp_bytes f.tcp ++ (f.tcp_options ++ f.payload)

  -- A byte of the TCP header.
  tcp_byte :
      (i k : ℕ)
      → i ≡ 34 + length f.ip_options + k
      → get_elem? (frame_bytes f) i ≡ get_elem? segment k
  unfolding frame_bytes
  tcp_byte i k e =
      get_elem?-append_at (ethernet_bytes f.ethernet ++ sniff_ip_bytes f.ip)
        (f.ip_options ++ segment) i (length f.ip_options + k) (omega arith)
      ∙ get_elem?-append_at f.ip_options segment (length f.ip_options + k) k refl

  pub length-frame_bytes : length (frame_bytes f) ≡ payload_offset f + length f.payload
  unfolding frame_bytes
  length-frame_bytes =
      omega (arith, length-append f.ip_options segment, length-append f.tcp_options f.payload)

  -- The frame is its headers and its payload.
  pub frame_bytes-append :
      (headers : Bytes) × (length headers ≡ payload_offset f)
      × (frame_bytes f ≡ headers ++ f.payload)
  unfolding frame_bytes
  frame_bytes-append =
      let front = ethernet_bytes f.ethernet ++ sniff_ip_bytes f.ip in
      let rear = sniff_tcp_bytes f.tcp ++ f.tcp_options in
      (
        front ++ (f.ip_options ++ rear),
        omega (arith, length-append f.ip_options rear),
        ap (◌++◌ front) (sym (append_assoc f.ip_options rear f.payload)),
      )

  pub read_vhl : read (frame_bytes f) ether_header_size ≡ ok (f.ip.ip_v * 16 + f.ip.ip_hl)
  unfolding frame_bytes
  read_vhl = refl

  pub read_src_ip : read_ip (frame_bytes f) (ether_header_size + 12) ≡ ok f.ip.ip_src
  unfolding frame_bytes
  read_src_ip = refl

  pub read_dst_ip : read_ip (frame_bytes f) (ether_header_size + 16) ≡ ok f.ip.ip_dst
  unfolding frame_bytes
  read_dst_ip = refl

  pub read_src_mac : read_mac (frame_bytes f) 6 ≡ ok f.ethernet.ether_shost
  unfolding frame_bytes
  read_src_mac = refl

  pub read_dst_mac : read_mac (frame_bytes f) 0 ≡ ok f.ethernet.ether_dhost
  unfolding frame_bytes
  read_dst_mac = refl

  read_word_at :
      (i k hi lo : ℕ)
      → i ≡ 34 + length f.ip_options + k
      → get_elem? segment k ≡ some hi
      → get_elem? segment (suc k) ≡ some lo
      → read_word (frame_bytes f) i ≡ ok (hi * 256 + lo)
  read_word_at i k hi lo e high low =
      rw (tcp_byte i k e, high, tcp_byte (i + 1) (suc k) (omega arith), low)

  -- The ports and the length of the TCP header, where the code looks for them.
  pub read_ports :
      (tcp : ℕ)
      → tcp ≡ 34 + length f.ip_options
      → (read_word (frame_bytes f) tcp ≡ ok f.tcp.th_sport)
        × (read_word (frame_bytes f) (tcp + 2) ≡ ok f.tcp.th_dport)
        × (read (frame_bytes f) (tcp + 12) ≡ ok (f.tcp.th_off * 16 + f.tcp.th_x2))
  read_ports tcp e =
      let port = λ (w : ℕ). let same : w / 256 * 256 + w % 256 ≡ w = omega arith in same in
      (
        rw (read_word_at tcp 0 _ _ (omega arith) refl refl) (ap ok (port f.tcp.th_sport)),
        rw (read_word_at (tcp + 2) 2 _ _ (omega arith) refl refl) (ap ok (port f.tcp.th_dport)),
        rw (tcp_byte (tcp + 12) 12 (omega arith)),
      )
