-- ===== src/Modbus/Tail.antt =====
-- What Modbus::processModbusPacket does where a payload does not end with a unit.
use ot_tcp_listener.Prelude.{
  ℕ, suc, ◌+◌, ◌-◌, ◌<◌, List, [], ◌∷◌, ◌++◌, ◌≡◌, refl, ap, ◌∙◌, Bytes, codes, length, arith, none,
  get_elem?-none,
}
use mathlib.Core.Path.{fun_ext}
use ot_tcp_listener.Prelude.Int.{pos, negsuc, sub_ℕ}
use ot_tcp_listener.Prelude.Outcome.{out_of_bounds, ok, fault, ◌>>=◌, copy}
use ot_tcp_listener.Qt.{Qt}
use ot_tcp_listener.Modbus.{
  Modbus, word, unit_texts, analyze_modbus_packet, process_unit, process_modbus_packet,
}
use ot_tcp_listener.Modbus.Stream.{
  ModbusUnit, stream, tell_all, hand_out, process_modbus_packet-append,
}

module _ (qt : Qt) where
  short_header :
      (fuel : ℕ) (m : Modbus) (p : Bytes)
      → length p < 6
      → process_modbus_packet qt (suc fuel) m p ≡ fault out_of_bounds
  unfolding process_modbus_packet
  short_header fuel m p h = ground (arith, get_elem?-none p 5)

  -- With more fuel than there are whole units: where the payload ends inside a unit of which the
  -- first six bytes are there, the units before it are told and kept in the object, but no text is
  -- given out for any of them.
  pub process_modbus_packet-truncated :
      (us : List ModbusUnit) (t1 t2 p1 p2 l1 l2 : ℕ) (rest : Bytes) (fuel : ℕ) (m : Modbus)
      → length us < fuel
      → length rest < word l1 l2
      → process_modbus_packet qt fuel m (stream us ++ t1 ∷ t2 ∷ p1 ∷ p2 ∷ l1 ∷ l2 ∷ rest)
        ≡ (tell_all qt m us >>= λ m'. ok (m', none))
  process_modbus_packet-truncated us t1 t2 p1 p2 l1 l2 rest fuel m h short =
      let fuel' : fuel ≡ length us + suc (fuel - length us - 1) = omega arith in
      rw fuel' (
        process_modbus_packet-append qt us (suc (fuel - length us - 1)) m _ _
        ∙ ap (λ f. tell_all qt m us >>= f)
            (fun_ext λ m'. unfold process_modbus_packet in ground arith))

  -- With more fuel than there are whole units: where one to five bytes follow the whole units of a
  -- payload, the header of a further unit is read past the end of the buffer, unless one of the
  -- units had a fault.
  pub process_modbus_packet-leftover :
      (us : List ModbusUnit) (b : ℕ) (rest : Bytes) (fuel : ℕ) (m : Modbus)
      → length us < fuel
      → length rest < 5
      → process_modbus_packet qt fuel m (stream us ++ b ∷ rest)
        ≡ (tell_all qt m us >>= λ m'. fault out_of_bounds)
  process_modbus_packet-leftover us b rest fuel m h short =
      let fuel' : fuel ≡ length us + suc (fuel - length us - 1) = omega arith in
      rw fuel' (
        process_modbus_packet-append qt us (suc (fuel - length us - 1)) m _ _
        ∙ ap (λ f. tell_all qt m us >>= f)
            (fun_ext λ m'. short_header (fuel - length us - 1) m' (b ∷ rest) (omega arith)))

  -- Six zero bytes, such as the padding of a short Ethernet frame, are told as a unit of length -1.
  pub process_modbus_packet_zeros :
      (fuel : ℕ) (m : Modbus)
      → process_modbus_packet qt (suc fuel) m (0 ∷ 0 ∷ 0 ∷ 0 ∷ 0 ∷ 0 ∷ [])
        ≡ hand_out qt (record m {
          texts =
              m.texts
              ++ (qt.arg (codes "Transaction Id:%1") (qt.number (pos 0))
                  ∷ qt.arg (codes "Lenght:%1") (qt.number (negsuc 0))
                  ∷ qt.arg (codes "Hex:%1") (qt.to_hex [] b':')
                  ∷ []);
        })
  unfolding process_modbus_packet process_unit analyze_modbus_packet unit_texts copy sub_ℕ
  process_modbus_packet_zeros fuel m = refl
