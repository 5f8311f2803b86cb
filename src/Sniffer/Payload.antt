-- ===== src/Sniffer/Payload.antt =====
-- What Sniffer::processIpPacket makes of the bytes behind the headers of a frame.
use ot_tcp_listener.Prelude.{
  ℕ, suc, ◌-◌, ◌^◌, ◌<◌, true, [], ◌∷◌, some, ◌≡◌, refl, sym, ◌∙◌, codes, length, lt→ltb, arith,
  append-nil,
}
use ot_tcp_listener.Prelude.Int.{pos, negsuc, int32_small}
use ot_tcp_listener.Prelude.Outcome.{ok, fault, out_of_bounds, ◌>>=◌, copy, copy-middle, copy_short}
use ot_tcp_listener.Qt.{Qt}
use ot_tcp_listener.Modbus.{process_modbus_packet}
use ot_tcp_listener.Modbus
use ot_tcp_listener.Modbus.Tail.{process_modbus_packet_zeros}
use ot_tcp_listener.Sniffer.Ip.{
  modbus_packet, process_payload, payload_len, payload_len_small, process_ip_packet,
}
use ot_tcp_listener.Sniffer.Frames.{
  Frame, IsFrame, frame_bytes, payload_offset, frame_report, has_modbus_port, length-frame_bytes,
  frame_bytes-append,
}
use ot_tcp_listener.Sniffer.Headers.{process_ip_packet-frame}

copy_payload :
    (f : Frame) → copy (length f.payload) (payload_offset f) (frame_bytes f) ≡ ok f.payload
copy_payload f =
    let (headers, size, e) = frame_bytes-append f in
    let whole =
      copy-middle headers f.payload [] (length f.payload) (payload_offset f) refl (sym size) in
    rw e (rw (append-nil f.payload) at whole)

headers_short : (f : Frame) → IsFrame f → payload_offset f < 135
headers_short f h = omega (arith, h.ip_hl_fits, h.th_off_fits, h.ip_covers, h.tcp_covers)

module _ (qt : Qt) (f : Frame) (h : IsFrame f) where
  -- Of a well-formed frame that was captured whole, with a Modbus port and a payload, a new Modbus
  -- object gets exactly the payload, and its text goes into the report of the headers.
  pub process_ip_packet_whole :
      has_modbus_port f ≡ true
      → 0 < length f.payload
      → let len = length (frame_bytes f) in
        process_ip_packet qt len (frame_bytes f) ≡ (
          process_modbus_packet qt (suc (length f.payload)) Modbus.init f.payload >>= λ r.
          ok (modbus_packet (record (frame_report qt f (pos len)) { modbus = r.1 })))
  unfolding process_payload
  process_ip_packet_whole port some_payload =
      let size = length-frame_bytes f in
      let rest : payload_len (length (frame_bytes f)) (payload_offset f) ≡ length f.payload =
        omega (
          arith,
          size,
          payload_len_small (length (frame_bytes f)) (payload_offset f)
              (omega (arith, size, headers_short f h, h.payload_fits))
              (omega (arith, headers_short f h)),
        ) in
      rw (
        process_ip_packet-frame qt f h (length (frame_bytes f)),
        port,
        rest,
        lt→ltb 0 (length f.payload) some_payload,
        int32_small (length (frame_bytes f))
            (omega (arith, size, headers_short f h, h.payload_fits)),
        process_payload,
        copy_payload f,
      )

  -- Of a well-formed frame with a Modbus port of which fewer bytes were captured than there were
  -- on the wire, the payload is copied from past the end of the capture.
  pub process_ip_packet_cut :
      (len : ℕ)
      → has_modbus_port f ≡ true
      → length (frame_bytes f) < len
      → len < 2 ^ 31
      → process_ip_packet qt len (frame_bytes f) ≡ fault out_of_bounds
  unfolding process_payload
  process_ip_packet_cut len port cut small =
      let size = length-frame_bytes f in
      let rest =
        payload_len_small len (payload_offset f) small (omega (arith, headers_short f h)) in
      rw (
        process_ip_packet-frame qt f h len,
        port,
        rest,
        lt→ltb 0 (len - payload_offset f) (omega (arith, size)),
        copy_short (len - payload_offset f) (payload_offset f) (frame_bytes f) (omega (arith, size))
            (omega (arith, size)),
      )

  -- A segment with a Modbus port that carries nothing, padded with six zero bytes, is reported as
  -- a Modbus packet of length -1.
  pub process_ip_packet_padding :
      has_modbus_port f ≡ true
      → f.payload ≡ 0 ∷ 0 ∷ 0 ∷ 0 ∷ 0 ∷ 0 ∷ []
      → let len = length (frame_bytes f) in
        process_ip_packet qt len (frame_bytes f)
        ≡ ok (
            modbus_packet (record (frame_report qt f (pos len)) {
              modbus = some (
                  qt.join
                    (qt.arg (codes "Transaction Id:%1") (qt.number (pos 0))
                      ∷ qt.arg (codes "Lenght:%1") (qt.number (negsuc 0))
                      ∷ qt.arg (codes "Hex:%1") (qt.to_hex [] b':')
                      ∷ [])
                    (codes ";"));
            }))
  process_ip_packet_padding port zeros =
      let some_payload : 0 < length f.payload = rw zeros (omega arith) in
      process_ip_packet_whole port some_payload
      ∙ rw (zeros, process_modbus_packet_zeros qt 6 Modbus.init)
