-- ===== src/Sniffer/Headers.antt =====
-- How Sniffer::processIpPacket reads the headers of a frame.
use ot_tcp_listener.Prelude.{
  ℕ, ◌+◌, ◌*◌, ◌/◌, ◌%◌, ◌&&◌, ◌≡◌, length, ltb, le→ltb_false, if◌then◌else◌, arith,
}
use ot_tcp_listener.Prelude.Outcome.{Outcome, ok}
use ot_tcp_listener.Prelude.Int.{int32}
use ot_tcp_listener.Qt.{Qt}
use ot_tcp_listener.Net.{ether_header_size}
use ot_tcp_listener.Sniffer.Fields.{packet_type_of-type_text}
use ot_tcp_listener.Sniffer.Frames.{
  Frame, IsFrame, frame_bytes, payload_offset, frame_report, has_modbus_port, read_vhl, read_src_ip,
  read_dst_ip, read_src_mac, read_dst_mac, read_ports,
}
use ot_tcp_listener.Sniffer.Ip.{
  Verdict, not_modbus, addressed, payload_len, process_payload, process_tcp, process_ip,
  process_ip_packet,
}

module _ (qt : Qt) (f : Frame) (h : IsFrame f) where
  -- What the code makes of the headers.
  abbrev expected : ℕ → Outcome Verdict
  expected len =
      if has_modbus_port f && ltb 0 (payload_len len (payload_offset f))
      then process_payload qt (frame_bytes f) (payload_offset f)
          (payload_len len (payload_offset f)) (frame_report qt f (int32 len))
      else ok not_modbus

  process_tcp-frame :
      (len tcp size_tcp : ℕ)
      → tcp ≡ 34 + length f.ip_options
      → size_tcp ≡ 20 + length f.tcp_options
      → process_tcp qt len
          (frame_bytes f)
          tcp
          size_tcp
          (addressed f.ip.ip_src f.ip.ip_dst f.ethernet.ether_shost f.ethernet.ether_dhost)
        ≡ expected len
  unfolding process_tcp
  process_tcp-frame len tcp size_tcp e e' =
      let ports = read_ports f tcp e in
      let offset : tcp + size_tcp ≡ payload_offset f = omega arith in
      rw (ports.0, ports.1, offset, packet_type_of-type_text f.tcp.th_sport f.tcp.th_dport)

  process_ip-frame :
      (len size_ip : ℕ)
      → size_ip ≡ 20 + length f.ip_options
      → process_ip qt len (frame_bytes f) size_ip ≡ expected len
  unfolding process_ip
  process_ip-frame len size_ip e =
      let size_tcp : (f.tcp.th_off * 16 + f.tcp.th_x2) / 16 % 16 * 4 ≡ 20 + length f.tcp_options =
        omega (arith, h.th_off_fits, h.th_x2_fits, h.tcp_covers) in
      rw
        (
          read_src_ip f,
          read_dst_ip f,
          read_src_mac f,
          read_dst_mac f,
          (read_ports f (ether_header_size + size_ip) (omega arith)).2,
          le→ltb_false ((f.tcp.th_off * 16 + f.tcp.th_x2) / 16 % 16 * 4) 20 (omega arith),
        )
        (process_tcp-frame len (ether_header_size + size_ip) _ (omega arith) size_tcp)

  -- The headers of a well-formed frame, with options or none, are read as they were written.
  -- Whatever its size on the wire: a packet of another port, or whose size less the headers is no
  -- int above 0, is left alone, and of any other so many bytes behind the headers are handed on
  -- with a report of the addresses, the ports and the size as an int.
  pub process_ip_packet-frame :
      (len : ℕ)
      → process_ip_packet qt len (frame_bytes f) ≡ (
          if has_modbus_port f && ltb 0 (payload_len len (payload_offset f))
          then process_payload qt
              (frame_bytes f)
              (payload_offset f)
              (payload_len len (payload_offset f))
              (frame_report qt f (int32 len))
          else ok not_modbus)
  unfolding process_ip_packet
  process_ip_packet-frame len =
      let size_ip : (f.ip.ip_v * 16 + f.ip.ip_hl) % 16 * 4 ≡ 20 + length f.ip_options =
        omega (arith, h.ip_hl_fits, h.ip_covers) in
      rw (read_vhl f, le→ltb_false ((f.ip.ip_v * 16 + f.ip.ip_hl) % 16 * 4) 20 (omega arith))
        (process_ip-frame len _ size_ip)
