-- ===== src/Modbus/Fuel.antt =====
-- The depth of the recursion of Modbus::processModbusPacket.
use ot_tcp_listener.Prelude.{
  ℕ, zero, suc, ◌+◌, ◌-◌, ◌/◌, ◌<◌, List, ◌≡◌, inl, inr, ap, Bytes, Text, length, arith, Option,
  none, ltb, ltb→lt, Bool-cases, if◌then◌else◌,
}
use ot_tcp_listener.Prelude.Int.{ℤ, pos, negsuc, sub_ℕ}
use ot_tcp_listener.Prelude.Outcome.{
  Outcome, ok, copy, copy_ends, >>=-cong, read, HasFuel, HasFuel-bind, read-HasFuel,
}
use ot_tcp_listener.Qt.{Qt}
use ot_tcp_listener.Modbus.{
  Modbus, word, header_size, analyze_modbus_packet, process_unit, process_modbus_packet,
  analyze_function, analyze_body, analyze_read, analyze_write, registers,
}

-- What is left of a payload after a unit is shorter than the payload.
shorter :
    (n : ℕ) (p q : Bytes)
    → copy (length p - (n + header_size - 1)) (n + header_size - 1) p ≡ ok q
    → n + header_size - 1 < length p
    → length q < length p
shorter n p q e h = elim (copy_ends (length p - (n + header_size - 1)) (n + header_size - 1) p) [
  | inl bad ↦ cc
  | inr (bytes, good, size) ↦ ground arith
]

module _ (qt : Qt) where
  -- One round gives the same for two ways to go on that agree on shorter payloads.
  process_unit_agree :
      (f g : Modbus → Bytes → Outcome (Modbus × Option Text)) (m : Modbus) (p : Bytes) (tid n : ℕ)
      → ((m' : Modbus) (q : Bytes) → length q < length p → f m' q ≡ g m' q)
      → process_unit qt f m p tid n ≡ process_unit qt g m p tid n
  unfolding process_unit
  process_unit_agree f g m p tid n agree = >>=-cong (copy (n - 1) header_size p) _ _ λ temp _.
      >>=-cong (analyze_modbus_packet qt m temp (sub_ℕ n 1)) _ _ λ x _.
        elim (Bool-cases (ltb (n + header_size - 1) (length p))) [
          | inl more ↦ rw more (
              >>=-cong (copy (length p - (n + header_size - 1)) (n + header_size - 1) p) _ _
                λ q e. agree _ q (shorter n p q e (ltb→lt _ _ more)))
          | inr done ↦ rw done
        ]

  -- Any two amounts of fuel above the size of the payload give the same outcome of
  -- processModbusPacket.
  pub process_modbus_packet_fuel :
      (fuel fuel' : ℕ) (m : Modbus) (p : Bytes)
      → length p < fuel
      → length p < fuel'
      → process_modbus_packet qt fuel m p ≡ process_modbus_packet qt fuel' m p
  unfolding process_modbus_packet
  process_modbus_packet_fuel zero fuel' m p h h' = absurd (omega arith)
  process_modbus_packet_fuel (suc fuel) zero m p h h' = absurd (omega arith)
  process_modbus_packet_fuel (suc fuel) (suc fuel') m p h h' = >>=-cong (read p 4) _ _ λ l1 _.
      >>=-cong (read p 5) _ _ λ l2 _. >>=-cong (read p 0) _ _ λ t1 _.
        >>=-cong (read p 1) _ _ λ t2 _.
          ap (λ r. if ltb (length p) (word l1 l2 + 6) then ok (m, none) else r)
            (process_unit_agree (process_modbus_packet qt fuel) (process_modbus_packet qt fuel') m p
              (word t1 t2) (word l1 l2)
              λ m' q lt. process_modbus_packet_fuel fuel fuel' m' q (omega arith) (omega arith))

  registers-HasFuel : (n i first base : ℕ) (p : Bytes) → HasFuel (registers qt n i first base p)
  unfolding registers
  registers-HasFuel zero i first base p = ground arith
  registers-HasFuel (suc n) i first base p =
      ground (arith, registers-HasFuel n (i + 1) first base p)

  analyze_write-HasFuel :
      (m : Modbus) (p : Bytes) (len address : ℕ) → HasFuel (analyze_write qt m p len address)
  unfolding analyze_write
  analyze_write-HasFuel m p len address =
      let values = HasFuel-bind (read p 5) _ (read-HasFuel p 5) λ count _.
        HasFuel-bind {B = List Text × Modbus} (registers qt (count / 2) 0 6 address p)
          (λ texts. ok (texts, m)) (registers-HasFuel (count / 2) 0 6 address p)
          λ texts _. ground arith in
      ground (arith, values)

  analyze_body-HasFuel :
      (m : Modbus) (p : Bytes) (len function : ℕ) → HasFuel (analyze_body qt m p len function)
  unfolding analyze_body analyze_read
  analyze_body-HasFuel m p len function = HasFuel-bind (read p 1) _ (read-HasFuel p 1) λ p1 _.
      HasFuel-bind (read p 2) _ (read-HasFuel p 2) λ p2 _.
        HasFuel-bind (read p 3) _ (read-HasFuel p 3) λ p3 _.
          HasFuel-bind (read p 4) _ (read-HasFuel p 4) λ p4 _. ground (
            arith,
            registers-HasFuel (p1 / 2) 0 2 m.last_address p,
            analyze_write-HasFuel m p len (word p1 p2),
          )

  analyze-HasFuel : (m : Modbus) (p : Bytes) (len : ℤ) → HasFuel (analyze_modbus_packet qt m p len)
  unfolding analyze_modbus_packet analyze_function
  analyze-HasFuel m p (negsuc n) = ground arith
  analyze-HasFuel m p (pos len) = grind (arith, read-HasFuel p 0, analyze_body-HasFuel m p len)

  copy-HasFuel : (n offset : ℕ) (p : Bytes) → HasFuel (copy n offset p)
  copy-HasFuel n offset p = ground (arith, copy_ends n offset p)

  process_unit-HasFuel :
      (f : Modbus → Bytes → Outcome (Modbus × Option Text)) (m : Modbus) (p : Bytes) (tid n : ℕ)
      → ((m' : Modbus) (q : Bytes) → length q < length p → HasFuel (f m' q))
      → HasFuel (process_unit qt f m p tid n)
  unfolding process_unit
  process_unit-HasFuel f m p tid n ih =
      HasFuel-bind (copy (n - 1) header_size p) _ (copy-HasFuel _ _ p) λ temp _.
        HasFuel-bind (analyze_modbus_packet qt m temp (sub_ℕ n 1)) _ (analyze-HasFuel m temp _)
          λ x _. elim (Bool-cases (ltb (n + header_size - 1) (length p))) [
            | inl more ↦ rw more (
                HasFuel-bind (copy (length p - (n + header_size - 1)) (n + header_size - 1) p) _
                  (copy-HasFuel _ _ p) λ q e. ih _ q (shorter n p q e (ltb→lt _ _ more)))
            | inr done ↦ rw done (ground arith)
          ]

  -- For every payload and every object, fuel above the size of the payload is never used up by the
  -- recursion of processModbusPacket.
  pub process_modbus_packet-HasFuel :
      (fuel : ℕ) (m : Modbus) (p : Bytes)
      → length p < fuel
      → HasFuel (process_modbus_packet qt fuel m p)
  unfolding process_modbus_packet
  process_modbus_packet-HasFuel zero m p h = absurd (omega arith)
  process_modbus_packet-HasFuel (suc fuel) m p h =
      HasFuel-bind (read p 4) _ (read-HasFuel p 4) λ l1 _.
        HasFuel-bind (read p 5) _ (read-HasFuel p 5) λ l2 _.
          HasFuel-bind (read p 0) _ (read-HasFuel p 0) λ t1 _.
            HasFuel-bind (read p 1) _ (read-HasFuel p 1) λ t2 _. ground (
              arith,
              process_unit-HasFuel (process_modbus_packet qt fuel) m p (word t1 t2) (word l1 l2)
                  λ m' q lt. process_modbus_packet-HasFuel fuel m' q (omega arith),
            )
