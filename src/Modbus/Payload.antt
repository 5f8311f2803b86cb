-- ===== src/Modbus/Payload.antt =====
-- Modbus::processModbusPacket on any payload at all: the payload is decoded first, and what was
-- decoded is told then.
use ot_tcp_listener.Prelude.{
  ℕ, zero, suc, ◌+◌, ◌-◌, ◌≤◌, ◌<◌, true, false, [], ◌∷◌, ◌++◌, Option, none, ◌≡◌, refl, ◌∙◌, Bytes,
  Text, length, take, drop, length-drop, length-take, ltb, if◌then◌else◌, arith, Bool-cases, inl,
  inr, take_all, drop-drop,
}
use ot_tcp_listener.Prelude.Int.{pos, negsuc, sub_ℕ}
use ot_tcp_listener.Prelude.Outcome.{
  Outcome, ok, fault, out_of_bounds, ◌>>=◌, copy, copy-take, >>=-assoc_cong, >>=-cong,
}
use ot_tcp_listener.Qt.{Qt}
use ot_tcp_listener.Modbus.{
  Modbus, word, header_size, unit_texts, analyze_modbus_packet, process_unit, process_modbus_packet,
}
use ot_tcp_listener.Modbus.Stream.{hand_out}
use ot_tcp_listener.Modbus.Reading.{big_endian, read_pdu, tell_reading, analyze-read_pdu}

-- A unit that is whole. `declared` is its length field: the size of the protocol data unit and one,
-- or 0 in a header that breaks the protocol.
pub record Frame : Type 0 where
  pub transaction : ℕ
  pub declared : ℕ
  pub pdu : Bytes

-- How a payload ends, behind its whole units.
pub data Payload : Type 0 where
  -- fewer than the six bytes that are read of a header
  leftover : Payload
  -- a unit that is longer than what is left
  cut : Payload
  -- a whole unit and nothing behind it
  last : Frame → Payload
  -- a whole unit with more behind it
  more : Frame → Payload → Payload

-- The unit with `n` for its length field, from the bytes behind that field.
abbrev pub frame_of : ℕ → ℕ → Bytes → Frame
frame_of tid n rest = record { transaction = tid; declared = n; pdu = take (n - 1) (drop 1 rest) }

abbrev pub decode_upto : ℕ → Bytes → Payload
decode_upto (suc fuel) (t1 ∷ t2 ∷ p1 ∷ p2 ∷ l1 ∷ l2 ∷ rest) =
    let n = big_endian l1 l2 in
    let frame = frame_of (big_endian t1 t2) n rest in
    let behind = decode_upto fuel (drop n rest) in
    if ltb (length rest) n
    then cut
    else if ltb n (length rest)
    then more frame behind
    else last frame
decode_upto _ _ = leftover

-- Each unit takes at least one byte, so the size is enough fuel.
unfoldable pub decode : Bytes → Payload
decode p = decode_upto (length p) p

module _ (qt : Qt) where
  -- A unit with the length field 0 has no protocol data unit to analyze.
  abbrev pub unit_reply : Modbus → ℕ → Bytes → Outcome (Text × Modbus)
  unit_reply m zero pdu = ok ([], m)
  unit_reply m (suc n) pdu = tell_reading qt m pdu (read_pdu m.last_address pdu)

  -- The texts of a unit go behind those that the object holds.
  abbrev pub tell_frame : Modbus → Frame → Outcome Modbus
  tell_frame m u = do
    (reply, m') ← unit_reply m u.declared u.pdu
    ok (record m' { texts = m'.texts ++ unit_texts qt u.transaction u.declared u.pdu reply })

  -- Only a payload that ends with a whole unit gives texts out.
  abbrev pub tell_payload : Modbus → Payload → Outcome (Modbus × Option Text)
  tell_payload m leftover = fault out_of_bounds
  tell_payload m cut = ok (m, none)
  tell_payload m (last u) = tell_frame m u >>= hand_out qt
  tell_payload m (more u behind) = tell_frame m u >>= λ m'. tell_payload m' behind

  sub_ℕ-zero : sub_ℕ 0 1 ≡ negsuc 0
  unfolding sub_ℕ
  sub_ℕ-zero = refl

  sub_ℕ-suc : (n : ℕ) → sub_ℕ (suc n) 1 ≡ pos n
  unfolding sub_ℕ
  sub_ℕ-suc n = ground arith

  -- What is analyzed of a unit whose length field is `n`.
  analyze_frame :
      (m : Modbus) (n : ℕ) (pdu : Bytes)
      → length pdu ≡ n - 1
      → analyze_modbus_packet qt m pdu (sub_ℕ n 1) ≡ unit_reply m n pdu
  analyze_frame m zero pdu e = rw (sub_ℕ-zero) (unfold analyze_modbus_packet in refl)
  analyze_frame m (suc n) pdu e =
      let size : n ≡ length pdu = omega arith in rw (sub_ℕ-suc n, size) (analyze-read_pdu qt m pdu)

  abbrev rest_told :
      (Modbus → Bytes → Outcome (Modbus × Option Text))
      → ℕ
      → Bytes
      → Modbus
      → Outcome (Modbus × Option Text)
  rest_told next n rest m = if ltb n (length rest) then next m (drop n rest) else hand_out qt m

  copied :
      (n a b c d e f : ℕ) (rest : Bytes)
      → n ≤ length rest
      → copy (n - 1) header_size (a ∷ b ∷ c ∷ d ∷ e ∷ f ∷ rest) ≡ ok (take (n - 1) (drop 1 rest))
  unfolding copy
  copied zero a b c d e f rest h = refl
  copied (suc n) a b c d e f rest h =
      copy-take (suc n - 1) header_size (a ∷ b ∷ c ∷ d ∷ e ∷ f ∷ rest) (omega arith)

  next_told :
      (next : Modbus → Bytes → Outcome (Modbus × Option Text)) (m : Modbus) (a b c d e f : ℕ)
      (rest : Bytes) (n : ℕ)
      → n ≤ length rest
      → (let p = a ∷ b ∷ c ∷ d ∷ e ∷ f ∷ rest in
          let offset = n + header_size - 1 in
          let further = copy (length p - offset) offset p >>= λ remainig. next m remainig in
          if ltb offset (length p) then further else hand_out qt m)
        ≡ rest_told next n rest m
  next_told next m a b c d e f rest n h =
      let p = a ∷ b ∷ c ∷ d ∷ e ∷ f ∷ rest in
      let offset : n + header_size - 1 ≡ 6 + n = omega arith in
      let left = copy-take (length p - (6 + n)) (6 + n) p (omega arith) in
      let all = take_all (length p - (6 + n)) (drop n rest) (omega (arith, length-drop n rest)) in
      rw (offset, left, ← drop-drop 6 n p, all) (ground arith)

  process_unit-Frame :
      (next : Modbus → Bytes → Outcome (Modbus × Option Text)) (m : Modbus) (a b c d e f : ℕ)
      (rest : Bytes) (tid n : ℕ)
      → n ≤ length rest
      → process_unit qt next m (a ∷ b ∷ c ∷ d ∷ e ∷ f ∷ rest) tid n
        ≡ (tell_frame m (frame_of tid n rest) >>= rest_told next n rest)
  unfolding process_unit
  process_unit-Frame next m a b c d e f rest tid n h =
      let size = length-take (n - 1) (drop 1 rest) (omega (arith, length-drop 1 rest)) in
      rw (copied n a b c d e f rest h, analyze_frame m n (take (n - 1) (drop 1 rest)) size)
        (>>=-assoc_cong (unit_reply m n (take (n - 1) (drop 1 rest))) _ _ λ x.
          next_told next
            (record x.1 {
              texts = x.1.texts ++ unit_texts qt tid n (take (n - 1) (drop 1 rest)) x.0;
            })
            a b c d e f rest n h)

  process_modbus_packet-decode_upto :
      (fuel size : ℕ) (m : Modbus) (p : Bytes)
      → length p < fuel
      → length p ≤ size
      → process_modbus_packet qt fuel m p ≡ tell_payload m (decode_upto size p)
  unfolding process_modbus_packet
  process_modbus_packet-decode_upto zero size m p h k = absurd (omega arith)
  process_modbus_packet-decode_upto (suc fuel) zero m [] h k = refl
  process_modbus_packet-decode_upto (suc fuel) zero m (a ∷ p) h k = absurd (omega arith)
  process_modbus_packet-decode_upto (suc fuel) (suc size) m (a ∷ b ∷ c ∷ d ∷ e ∷ f ∷ rest) h k =
      let p = a ∷ b ∷ c ∷ d ∷ e ∷ f ∷ rest in
      let n = word e f in
      let behind = drop n rest in
      elim (Bool-cases (ltb (length rest) n)) [
        | inl short ↦
            let short' : ltb (length p) (n + 6) ≡ true = ground arith in rw (short, short')
        | inr whole ↦
            let whole' : ltb (length p) (n + 6) ≡ false = ground arith in
            let unit =
              process_unit-Frame (process_modbus_packet qt fuel) m a b c d e f rest (word a b) n
                (ground arith) in
            elim (Bool-cases (ltb n (length rest))) [
              | inl further ↦
                  let shorter = length-drop n rest in
                  rw (whole, whole', further)
                    (unit
                      ∙ >>=-cong (tell_frame m (frame_of (word a b) n rest)) _ _ λ m' _.
                        rw further (
                          process_modbus_packet-decode_upto fuel size m' behind (omega arith)
                            (omega arith)))
              | inr done ↦
                  rw (whole, whole', done)
                    (unit
                      ∙ >>=-cong (tell_frame m (frame_of (word a b) n rest)) _ _ λ m' _. rw done)
            ]
      ]
  process_modbus_packet-decode_upto (suc fuel) (suc size) m p h k = ground arith

  -- With more fuel than it has bytes, every payload is decoded into whole units and an end, and
  -- told: the units in their order, up to the first fault; all texts are given out, joined, if the
  -- payload ends with a whole unit, none if its last unit is cut off, and fewer than six bytes at
  -- the end are read past. A unit with the length field 0 has six bytes and is told with no
  -- analysis.
  pub process_modbus_packet-decode :
      (fuel : ℕ) (m : Modbus) (p : Bytes)
      → length p < fuel
      → process_modbus_packet qt fuel m p ≡ tell_payload m (decode p)
  unfolding process_modbus_packet decode
  process_modbus_packet-decode fuel m p h =
      process_modbus_packet-decode_upto fuel (length p) m p h (omega arith)
