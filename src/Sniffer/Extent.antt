-- ===== src/Sniffer/Extent.antt =====
-- Sniffer::processIpPacket on any captured bytes at all: which bytes it needs, and what it makes of
-- them.
use ot_tcp_listener.Prelude.{
  ℕ, suc, ◌+◌, ◌*◌, ◌/◌, ◌%◌, ◌≤◌, ◌<◌, ◌||◌, ◌&&◌, Bool, true, ◌≡◌, inl, inr, ◌∙◌, Bytes, length,
  take, drop, length-take, length-drop, ltb, ◌==◌, if◌then◌else◌, arith, Bool-cases,
}
use ot_tcp_listener.Prelude.Int.{pos, int32}
use ot_tcp_listener.Prelude.Outcome.{
  Outcome, ok, fault, out_of_bounds, ◌>>=◌, copy-take, copy_short,
}
use ot_tcp_listener.Qt.{Qt}
use ot_tcp_listener.Net.{ether_header_size, port_mbtcp, read_ip, read_mac}
use ot_tcp_listener.Modbus
use ot_tcp_listener.Modbus.Payload.{decode, tell_payload, process_modbus_packet-decode}
use ot_tcp_listener.Sniffer.Ip.{
  Report, Verdict, invalid_ip_header, invalid_tcp_header, not_modbus, modbus_packet, payload_len,
  addressed, process_payload, process_tcp, process_ip, process_ip_packet,
}
use ot_tcp_listener.Sniffer.Fields.{
  byte_at, word_at, ip_at, mac_at, read-byte_at, read_past, read_word-word_at, read_ip-ip_at,
  read_mac-mac_at, IsRead-past, read_ip-IsRead, read_mac-IsRead, type_text,
  packet_type_of-type_text,
}

-- The header sizes that the packet declares, and where the headers start and end.
abbrev pub ip_size : Bytes → ℕ
ip_size p = byte_at p ether_header_size % 16 * 4

abbrev pub tcp_start : Bytes → ℕ
tcp_start p = ether_header_size + ip_size p

abbrev pub tcp_size : Bytes → ℕ
tcp_size p = byte_at p (tcp_start p + 12) / 16 % 16 * 4

abbrev pub headers_end : Bytes → ℕ
headers_end p = tcp_start p + tcp_size p

-- How many bytes behind the headers are taken for the payload of a packet of `len` bytes on the
-- wire: below 2^31, all that there are.
abbrev pub payload_size : ℕ → Bytes → ℕ
payload_size len p = payload_len len (headers_end p)

-- A packet of `len` bytes on the wire carries something from or to the Modbus port.
abbrev pub carries_modbus : ℕ → Bytes → Bool
carries_modbus len p =
    (word_at p (tcp_start p + 2) == port_mbtcp || word_at p (tcp_start p) == port_mbtcp)
    && ltb 0 (payload_size len p)

-- How many bytes have to be there.
abbrev pub extent : ℕ → Bytes → ℕ
extent len p =
    if ltb (ip_size p) 20
    then ether_header_size + 1
    else if ltb (tcp_size p) 20
    then tcp_start p + 13
    else if carries_modbus len p
    then headers_end p + payload_size len p
    else tcp_start p + 13

module _ (qt : Qt) (len : ℕ) (p : Bytes) where
  -- What the headers say.
  abbrev pub headers_report : Report
  headers_report =
      let src_port = word_at p (tcp_start p) in
      let dst_port = word_at p (tcp_start p + 2) in
      record (addressed (ip_at p (ether_header_size + 12)) (ip_at p (ether_header_size + 16))
        (mac_at p 6) (mac_at p 0)) {
          src_port = qt.number (pos src_port);
          dst_port = qt.number (pos dst_port);
          packet_type = type_text src_port dst_port;
          packet_len = qt.number (int32 len);
        }

  -- The bytes behind the headers go to a new Modbus object.
  abbrev pub tell_modbus : Outcome Verdict
  tell_modbus =
      let payload = take (payload_size len p) (drop (headers_end p) p) in
      tell_payload qt Modbus.init (decode payload) >>= λ r.
      ok (modbus_packet (record headers_report { modbus = r.1 }))

  -- What is made of a packet of which all bytes that it needs are there.
  abbrev pub tell_packet : Outcome Verdict
  tell_packet =
      if ltb (ip_size p) 20
      then ok (invalid_ip_header (ip_size p))
      else if ltb (tcp_size p) 20
      then ok (invalid_tcp_header (tcp_size p))
      else if carries_modbus len p
      then tell_modbus
      else ok not_modbus

  -- The payload of a packet, behind its headers.
  process_payload-extent :
      (r : Report)
      → 0 < payload_size len p
      → process_payload qt p (headers_end p) (payload_size len p) r ≡ (
          if ltb (length p) (headers_end p + payload_size len p)
          then fault out_of_bounds
          else (tell_payload qt Modbus.init
                (decode (take (payload_size len p) (drop (headers_end p) p)))
              >>= λ x. ok (modbus_packet (record r { modbus = x.1 }))))
  unfolding process_payload
  process_payload-extent r h =
      elim (Bool-cases (ltb (length p) (headers_end p + payload_size len p))) [
        | inl short ↦
            rw (
              short,
              copy_short (payload_size len p) (headers_end p) p (omega arith) (ground arith),
            )
        | inr whole ↦
            let fits : headers_end p + (payload_size len p) ≤ length p = ground arith in
            let payload = take (payload_size len p) (drop (headers_end p) p) in
            let size =
              length-take (payload_size len p) (drop (headers_end p) p)
                (omega (arith, length-drop (headers_end p) p)) in
            rw (
              whole,
              copy-take (payload_size len p) (headers_end p) p fits,
              process_modbus_packet-decode qt (suc (payload_size len p)) Modbus.init payload
                  (omega arith),
            )
      ]

  abbrev addresses : Report
  addresses =
      addressed (ip_at p (ether_header_size + 12)) (ip_at p (ether_header_size + 16)) (mac_at p 6)
        (mac_at p 0)

  process_tcp-extent :
      tcp_start p + 13 ≤ length p
      → process_tcp qt len p (tcp_start p) (tcp_size p) addresses ≡ (
          if carries_modbus len p
          then if ltb (length p) (headers_end p + payload_size len p)
            then fault out_of_bounds
            else tell_modbus
          else ok not_modbus)
  unfolding process_tcp
  process_tcp-extent there =
      let src = read_word-word_at p (tcp_start p) (omega arith) in
      let dst = read_word-word_at p (tcp_start p + 2) (omega arith) in
      let type = packet_type_of-type_text (word_at p (tcp_start p)) (word_at p (tcp_start p + 2)) in
      elim (Bool-cases (carries_modbus len p)) [
        | inl carries ↦
            rw (src, dst, carries, type) (process_payload-extent headers_report (ground arith))
        | inr other ↦ rw (src, dst, other)
      ]

  process_ip-extent :
      20 ≤ ip_size p
      → process_ip qt len p (ip_size p) ≡ (
          if ltb (length p) (tcp_start p + 13)
          then fault out_of_bounds
          else if ltb (tcp_size p) 20
          then ok (invalid_tcp_header (tcp_size p))
          else process_tcp qt len p (tcp_start p) (tcp_size p) addresses)
  unfolding process_ip
  process_ip-extent size = elim (Bool-cases (ltb (length p) (tcp_start p + 13))) [
    | inl short ↦ rw short (
        IsRead-past (read_ip p (ether_header_size + 12)) _ (read_ip-IsRead p _) λ a.
          IsRead-past (read_ip p (ether_header_size + 16)) _ (read_ip-IsRead p _) λ b.
            IsRead-past (read_mac p 6) _ (read_mac-IsRead p _) λ c.
              IsRead-past (read_mac p 0) _ (read_mac-IsRead p _)
                λ d. let past = read_past p (tcp_start p + 12) (ground arith) in rw past)
    | inr whole ↦
        let there : tcp_start p + 13 ≤ length p = ground arith in
        rw (
          whole,
          read_ip-ip_at p (ether_header_size + 12) (omega arith),
          read_ip-ip_at p (ether_header_size + 16) (omega arith),
          read_mac-mac_at p 6 (omega arith),
          read_mac-mac_at p 0 (omega arith),
          read-byte_at p (tcp_start p + 12) (omega arith),
        )
  ]

  -- Of all captured bytes and every size on the wire: processIpPacket reads past the captured
  -- bytes if there are fewer than it needs: 15, or up to the byte of the TCP header length if the
  -- IP header length is valid, or up to the end of the payload if both lengths are valid, a port
  -- is the Modbus port and the payload is not empty: its length is the size on the wire less the
  -- headers, as an int, and none if that is negative. Otherwise it ends by the header lengths, the
  -- ports and the addresses that are written there, with what the decoded payload tells.
  pub process_ip_packet-extent :
      process_ip_packet qt len p
      ≡ (if ltb (length p) (extent len p) then fault out_of_bounds else tell_packet)
  unfolding process_ip_packet
  process_ip_packet-extent = elim (Bool-cases (ltb (length p) (ether_header_size + 1))) [
    | inl empty ↦
        let short : ltb (length p) (extent len p) ≡ true = ground arith in
        let past = read_past p ether_header_size (ground arith) in rw (short, past)
    | inr some_byte ↦
        let vhl = read-byte_at p ether_header_size (ground arith) in
        elim (Bool-cases (ltb (ip_size p) 20)) [
          | inl bad ↦ rw (vhl, bad, some_byte)
          | inr good ↦
              rw (vhl, good) (process_ip-extent (ground arith) ∙ ground (arith, process_tcp-extent))
        ]
  ]
