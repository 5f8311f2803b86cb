-- ===== src/Modbus/Faults.antt =====
-- When Modbus::analyzeModbusPacket leaves defined behaviour, and how.
use ot_tcp_listener.Prelude.{
  ℕ, zero, suc, ◌+◌, ◌*◌, ◌/◌, ◌%◌, ◌≤◌, ◌<◌, List, [], ◌∷◌, ◌≡◌, inl, inr, refl, Bytes, Text,
  length, arith, Option, none, some, ltb, ◌==◌, if◌then◌else◌, Bool, false, Bool-cases, ltb→lt,
  ◌&&◌, ◌||◌, get_elem?-some, get_elem?-none,
}
use ot_tcp_listener.Prelude.Int.{pos}
use ot_tcp_listener.Prelude.Outcome.{Fault, no_return, out_of_bounds, Outcome, ok, fault}
use ot_tcp_listener.Qt.{Qt}
use ot_tcp_listener.Modbus.{
  Modbus, word, registers, register_text, analyze_modbus_packet, analyze_function, analyze_body,
  analyze_read, analyze_write,
}

-- Where the registers end that the byte count of a protocol data unit promises.
abbrev pub declared_end : Bytes → ℕ
declared_end (f ∷ p1 ∷ p2 ∷ p3 ∷ p4 ∷ p5 ∷ rest) =
    if f == 3 || f == 4 then 2 + p1 / 2 * 2 else if f == 16 then 6 + p5 / 2 * 2 else 0
declared_end _ = 0

abbrev pub has_exception_bit : Bytes → Bool
has_exception_bit [] = false
has_exception_bit (f ∷ rest) = f / 128 % 2 == 1

-- The fault that the contents of a protocol data unit call for, if any.
abbrev pub expected_fault : Bytes → Option Fault
expected_fault pdu =
    if ltb (length pdu) 5
    then none
    else if has_exception_bit pdu
    then some no_return
    else if ltb 8 (length pdu) && ltb (length pdu) (declared_end pdu)
    then some out_of_bounds
    else none

-- The outcome is that fault, or a value if there is none.
abbrev pub EndsAs {ℓ} : {A : Type ℓ} → Option Fault → Outcome A → Type ℓ
EndsAs {A = A} none o = (a : A) × (o ≡ ok a)
EndsAs (some e) o = o ≡ fault e

module _ (qt : Qt) where
  registers_returns :
      (n i first base : ℕ) (p : Bytes)
      → first + (i + n) * 2 ≤ length p
      → (texts : List Text) × (registers qt n i first base p ≡ ok texts)
  unfolding registers
  registers_returns zero i first base p h = ([], refl)
  registers_returns (suc n) i first base p h =
      let (hi, e) = get_elem?-some p (first + i * 2) (omega arith) in
      let (lo, e') = get_elem?-some p (first + i * 2 + 1) (omega arith) in
      let (rest, e'') = registers_returns n (i + 1) first base p (omega arith) in
      (register_text qt (base + i) (word hi lo) ∷ rest, rw (e, e', e''))

  registers_over_read :
      (n i first base : ℕ) (p : Bytes)
      → first + i * 2 ≤ length p
      → length p < first + (i + n) * 2
      → registers qt n i first base p ≡ fault out_of_bounds
  unfolding registers
  registers_over_read zero i first base p h h' = absurd (omega arith)
  registers_over_read (suc n) i first base p h h' =
      grind (arith, registers_over_read n (i + 1) first base p, get_elem?-none p, get_elem?-some p)

  -- The loop runs to its end exactly when its last register lies in the buffer.
  registers_ends :
      (n first base : ℕ) (p : Bytes)
      → first ≤ length p
      → EndsAs
          (if ltb (length p) (first + n * 2) then some out_of_bounds else none)
          (registers qt n 0 first base p)
  registers_ends n first base p h = elim (Bool-cases (ltb (length p) (first + n * 2))) [
    | inl short ↦
        let lt = ltb→lt _ _ short in
        rw short (registers_over_read n 0 first base p (omega arith) (omega arith))
    | inr whole ↦ rw whole (registers_returns n 0 first base p (ground arith))
  ]

  -- Of any protocol data unit in a buffer of its own size, analyzeModbusPacket ends with no return
  -- if it has five bytes or more and the exception bit, reads past the buffer if it has more than
  -- 8 bytes and promises more registers than it holds, and returns in every other case.
  pub analyze_faults :
      (m : Modbus) (pdu : Bytes)
      → EndsAs (expected_fault pdu) (analyze_modbus_packet qt m pdu (pos (length pdu)))
  unfolding analyze_modbus_packet analyze_function analyze_body analyze_read analyze_write
  analyze_faults m [] = (([], m), refl)
  analyze_faults m (a ∷ []) = (([], m), refl)
  analyze_faults m (a ∷ b ∷ []) = (([], m), refl)
  analyze_faults m (a ∷ b ∷ c ∷ []) = (([], m), refl)
  analyze_faults m (a ∷ b ∷ c ∷ d ∷ []) = ground arith
  analyze_faults m (a ∷ b ∷ c ∷ d ∷ e ∷ []) = ground arith
  analyze_faults m (a ∷ b ∷ c ∷ d ∷ e ∷ f ∷ rest) =
      let p = a ∷ b ∷ c ∷ d ∷ e ∷ f ∷ rest in
      ground (
        arith,
        registers_ends (b / 2) 2 m.last_address p (omega arith),
        registers_ends (f / 2) 6 (word b c) p (omega arith),
      )
