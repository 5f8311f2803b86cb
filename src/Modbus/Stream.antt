-- ===== src/Modbus/Stream.antt =====
-- Modbus::processModbusPacket against the protocol: a TCP payload is a sequence of units, each a
-- header of seven bytes and a protocol data unit.
use ot_tcp_listener.Prelude.{
  ℕ, suc, ◌+◌, ◌-◌, ◌/◌, ◌%◌, ◌<◌, List, [], ◌∷◌, ◌++◌, ◌≡◌, refl, ap, ◌∙◌, Bytes, Text, codes,
  length, arith, Option, some, false, ltb, if◌then◌else◌, append_assoc, append-nil, length-append,
  le→ltb_false, lt→ltb,
}
use mathlib.Core.Path.{fun_ext}
use ot_tcp_listener.Prelude.Int.{pos, sub_ℕ}
use ot_tcp_listener.Prelude.Outcome.{Outcome, ok, ◌>>=◌, copy, copy-middle, >>=-assoc_cong}
use ot_tcp_listener.Qt.{Qt}
use ot_tcp_listener.Modbus.{
  Modbus, word, header_size, unit_texts, analyze_modbus_packet, process_unit, process_modbus_packet,
}

-- A unit of the protocol.
pub record ModbusUnit : Type 0 where
  pub transaction : ℕ
  pub protocol : ℕ
  pub address : ℕ
  pub pdu : Bytes

-- The header's length field counts the unit's address with the protocol data unit.
abbrev pub header_bytes : ModbusUnit → Bytes
header_bytes u =
    (u.transaction / 256)
    ∷ (u.transaction % 256)
    ∷ (u.protocol / 256)
    ∷ (u.protocol % 256)
    ∷ ((length u.pdu + 1) / 256)
    ∷ ((length u.pdu + 1) % 256)
    ∷ u.address
    ∷ []

abbrev pub unit_bytes : ModbusUnit → Bytes
unit_bytes u = header_bytes u ++ u.pdu

abbrev pub stream : List ModbusUnit → Bytes
stream [] = []
stream (u ∷ us) = unit_bytes u ++ stream us

module _ (qt : Qt) where
  -- The texts of a unit go behind those that the object holds.
  abbrev pub tell : Modbus → ModbusUnit → Outcome Modbus
  tell m u = do
    (reply, m') ← analyze_modbus_packet qt m u.pdu (pos (length u.pdu))
    ok (record m' {
      texts = m'.texts ++ unit_texts qt u.transaction (length u.pdu + 1) u.pdu reply;
    })

  -- The units of a payload in their order, up to the first fault.
  abbrev pub tell_all : Modbus → List ModbusUnit → Outcome Modbus
  tell_all m [] = ok m
  tell_all m (u ∷ us) = do m' ← tell m u; tell_all m' us

  -- The object gives its texts away and holds none.
  abbrev pub hand_out : Modbus → Outcome (Modbus × Option Text)
  hand_out m = ok (record m { texts = [] }, some (qt.join m.texts (codes ";")))

  -- What process_unit does with the rest of the payload.
  abbrev continue :
      (Modbus → Bytes → Outcome (Modbus × Option Text))
      → Bytes
      → Modbus
      → Outcome (Modbus × Option Text)
  continue next [] m = hand_out m
  continue next (b ∷ rest) m = next m (b ∷ rest)

  -- The size that is handed to the analysis.
  sub_ℕ_one : (n : ℕ) → sub_ℕ (n + 1) 1 ≡ pos n
  unfolding sub_ℕ
  sub_ℕ_one n = ground arith

  -- What follows the analysis of a unit whose texts are in `m`.
  proceed-continue :
      (next : Modbus → Bytes → Outcome (Modbus × Option Text)) (m : Modbus) (front rest : Bytes)
      (offset : ℕ)
      → offset ≡ length front
      → (if ltb offset (length (front ++ rest))
          then (do
            remainig ← copy (length (front ++ rest) - offset) offset (front ++ rest)
            next m remainig)
          else hand_out m)
        ≡ continue next rest m
  proceed-continue next m front [] offset e =
      rw (le→ltb_false offset (length (front ++ [])) (omega (arith, length-append front [])))
  proceed-continue next m front (b ∷ rest) offset e =
      let size = length-append front (b ∷ rest) in
      let left =
        copy-middle front (b ∷ rest) [] (length (front ++ b ∷ rest) - offset) offset
          (omega (arith, size)) e in
      rw (
        lt→ltb offset (length (front ++ b ∷ rest)) (omega (arith, size)),
        (rw (append-nil (b ∷ rest)) at left),
      )

  process_unit-unit_bytes :
      (next : Modbus → Bytes → Outcome (Modbus × Option Text)) (m : Modbus) (u : ModbusUnit)
      (rest : Bytes)
      → process_unit qt next m (unit_bytes u ++ rest) u.transaction (length u.pdu + 1)
        ≡ (tell m u >>= continue next rest)
  unfolding process_unit
  process_unit-unit_bytes next m u rest =
      let n = length u.pdu + 1 in
      let less_one : n - 1 ≡ length u.pdu = omega arith in
      let temp = copy-middle (header_bytes u) u.pdu rest (length u.pdu) header_size refl refl in
      rw (less_one, sub_ℕ_one (length u.pdu), temp)
        (>>=-assoc_cong (analyze_modbus_packet qt m u.pdu (pos (length u.pdu))) _ _ (λ x.
          proceed-continue next
            (record x.1 { texts = x.1.texts ++ unit_texts qt u.transaction n u.pdu x.0 })
            (unit_bytes u) rest (n + header_size - 1)
            (omega (arith, length-append (header_bytes u) u.pdu))))

  process_modbus_packet_step :
      (fuel : ℕ) (m : Modbus) (u : ModbusUnit) (rest : Bytes)
      → process_modbus_packet qt (suc fuel) m (unit_bytes u ++ rest)
        ≡ (tell m u >>= continue (process_modbus_packet qt fuel) rest)
  unfolding process_modbus_packet
  process_modbus_packet_step fuel m u rest =
      let n = length u.pdu + 1 in
      let size = length-append (unit_bytes u) rest in
      let size' = length-append (header_bytes u) u.pdu in
      let value : word (n / 256) (n % 256) ≡ n = omega arith in
      let id : word (u.transaction / 256) (u.transaction % 256) ≡ u.transaction = omega arith in
      let whole : ltb (length (unit_bytes u ++ rest)) (n + 6) ≡ false =
        le→ltb_false (length (unit_bytes u ++ rest)) (n + 6) (omega (arith, size, size')) in
      rw (value, id, whole) (process_unit-unit_bytes (process_modbus_packet qt fuel) m u rest)

  continue_next :
      (next : Modbus → Bytes → Outcome (Modbus × Option Text)) (t : Bytes) (m : Modbus)
      → 0 < length t
      → continue next t m ≡ next m t
  continue_next next [] m h = absurd (omega arith)
  continue_next next (b ∷ t) m h = refl

  -- A payload is told unit by unit: the bytes that follow some whole units, at least one byte, are
  -- processed by the object that has told these units, with the fuel that is left.
  pub process_modbus_packet-append :
      (us : List ModbusUnit) (fuel : ℕ) (m : Modbus) (b : ℕ) (rest : Bytes)
      → process_modbus_packet qt (length us + fuel) m (stream us ++ b ∷ rest)
        ≡ (tell_all m us >>= λ m'. process_modbus_packet qt fuel m' (b ∷ rest))
  process_modbus_packet-append [] fuel m b rest =
      ap (λ k. process_modbus_packet qt k m (b ∷ rest)) (omega arith)
  process_modbus_packet-append (u ∷ us) fuel m b rest =
      let fuel' : suc (length us) + fuel ≡ suc (length us + fuel) = omega arith in
      let t = stream us ++ b ∷ rest in
      rw (fuel', append_assoc u.pdu (stream us) (b ∷ rest))
        (process_modbus_packet_step (length us + fuel) m u t
          ∙ >>=-assoc_cong (tell m u) _ _ (λ m'.
            continue_next (process_modbus_packet qt (length us + fuel)) t m'
              (omega (arith, length-append (stream us) (b ∷ rest)))
            ∙ process_modbus_packet-append us fuel m' b rest))

  -- With more fuel than it has units before the last one, a payload of whole Modbus/TCP units
  -- gives the texts of all units in their order, joined, and leaves the object empty; a fault is
  -- that of the first unit that has one.
  pub process_modbus_packet-stream :
      (us : List ModbusUnit) (u : ModbusUnit) (fuel : ℕ) (m : Modbus)
      → length us < fuel
      → process_modbus_packet qt fuel m (stream us ++ unit_bytes u)
        ≡ (tell_all m us >>= λ m'. tell m' u >>= hand_out)
  process_modbus_packet-stream us u fuel m h =
      let fuel' : fuel ≡ length us + suc (fuel - length us - 1) = omega arith in
      rw fuel' (
        process_modbus_packet-append us (suc (fuel - length us - 1)) m _ _
        ∙ ap (λ f. tell_all m us >>= f)
            (fun_ext λ m'.
              rw (append-nil u.pdu) at (process_modbus_packet_step (fuel - length us - 1) m' u [])))
