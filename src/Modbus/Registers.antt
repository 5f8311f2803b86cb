-- ===== src/Modbus/Registers.antt =====
-- The register loops of Modbus::analyzeModbusPacket against the register block of the protocol.
use ot_tcp_listener.Prelude.{
  ℕ, ◌+◌, ◌*◌, ◌/◌, ◌%◌, ◌≤◌, List, [], ◌∷◌, ◌++◌, ◌≡◌, ◌⊎◌, refl, Bytes, Text, codes, length,
  arith, append_assoc, get_elem?-append_at, length-append,
}
use ot_tcp_listener.Prelude.Int.{pos}
use ot_tcp_listener.Prelude.Outcome.{ok}
use ot_tcp_listener.Qt.{Qt}
use ot_tcp_listener.Modbus.{
  Modbus, word, register_text, registers, analyze_read, analyze_write, analyze_body,
  analyze_function, analyze_modbus_packet, function_name,
}

-- Registers as the protocol sends them: two bytes each, the high one first.
abbrev pub register_bytes : List ℕ → Bytes
register_bytes [] = []
register_bytes (w ∷ ws) = (w / 256) ∷ (w % 256) ∷ register_bytes ws

-- The protocol data unit that answers a read of registers.
abbrev pub read_response : ℕ → List ℕ → Bytes
read_response function ws = function ∷ (2 * length ws) ∷ register_bytes ws

-- The protocol data unit that asks to write registers from `address` on.
abbrev pub write_request : ℕ → List ℕ → Bytes
write_request address ws =
    16
    ∷ (address / 256)
    ∷ (address % 256)
    ∷ (length ws / 256)
    ∷ (length ws % 256)
    ∷ (2 * length ws)
    ∷ register_bytes ws

pub length-register_bytes : (ws : List ℕ) → length (register_bytes ws) ≡ 2 * length ws
length-register_bytes [] = refl
length-register_bytes (w ∷ ws) = omega (arith, length-register_bytes ws)

module _ (qt : Qt) where
  -- One text for each register, with consecutive addresses.
  abbrev pub register_texts : ℕ → ℕ → List ℕ → List Text
  register_texts base i [] = []
  register_texts base i (w ∷ ws) = register_text qt (base + i) w ∷ register_texts base (i + 1) ws

  -- The loop reads the block that lies behind `front`.
  pub registers-register_bytes :
      (ws : List ℕ) (i first base : ℕ) (front : Bytes)
      → length front ≡ first + i * 2
      → registers qt (length ws) i first base (front ++ register_bytes ws)
        ≡ ok (register_texts base i ws)
  unfolding registers
  registers-register_bytes [] i first base front e = refl
  registers-register_bytes (w ∷ ws) i first base front e =
      let high =
        get_elem?-append_at front (register_bytes (w ∷ ws)) (first + i * 2) 0 (omega arith) in
      let low =
        get_elem?-append_at front (register_bytes (w ∷ ws)) (first + i * 2 + 1) 1 (omega arith) in
      let next =
        registers-register_bytes ws (i + 1) first base (front ++ (w / 256) ∷ (w % 256) ∷ [])
          (omega (arith, length-append front ((w / 256) ∷ (w % 256) ∷ []))) in
      let split = append_assoc front ((w / 256) ∷ (w % 256) ∷ []) (register_bytes ws) in
      let value : word (w / 256) (w % 256) ≡ w = omega arith in
      rw (high, low, (rw split at next), value)

  abbrev pub response_text : ℕ → ℕ → List ℕ → Text
  response_text function base ws =
      qt.join ((codes "Function:" ++ function_name function) ∷ register_texts base 0 ws) (codes ";")

  low_bits : (function : ℕ) → (function ≡ 3) ⊎ (function ≡ 4) → function % 128 ≡ function
  low_bits function f = omega arith

  -- A response to a read of four or more registers is told in full: one text for each register,
  -- with consecutive addresses from the last remembered one on.
  pub analyze-read_response :
      (m : Modbus) (function : ℕ) (ws : List ℕ)
      → (function ≡ 3) ⊎ (function ≡ 4)
      → 4 ≤ length ws
      → analyze_modbus_packet qt m
          (read_response function ws)
          (pos (length (read_response function ws)))
        ≡ ok (response_text function m.last_address ws, m)
  unfolding analyze_modbus_packet analyze_function analyze_body analyze_read
  analyze-read_response m function (w1 ∷ w2 ∷ w3 ∷ w4 ∷ ws) f h =
      let all = w1 ∷ w2 ∷ w3 ∷ w4 ∷ ws in
      let half : 2 * length all / 2 ≡ length all = omega arith in
      ground (
        arith,
        half,
        low_bits function f,
        registers-register_bytes all 0 2 m.last_address (function ∷ (2 * length all) ∷ []) refl,
      )
  analyze-read_response m function [] f h = absurd (omega arith)
  analyze-read_response m function (w1 ∷ []) f h = absurd (omega arith)
  analyze-read_response m function (w1 ∷ w2 ∷ []) f h = absurd (omega arith)
  analyze-read_response m function (w1 ∷ w2 ∷ w3 ∷ []) f h = absurd (omega arith)

  abbrev pub request_text : ℕ → List ℕ → Text
  request_text address ws =
      qt.join
        ((codes "Function:" ++ codes "Preset Multiple Registers") ∷ register_texts address 0 ws)
        (codes ";")

  -- A request to write two or more registers is told in full, each value with the address that it
  -- is written to.
  pub analyze-write_request :
      (m : Modbus) (address : ℕ) (ws : List ℕ)
      → 2 ≤ length ws
      → analyze_modbus_packet qt m
          (write_request address ws)
          (pos (length (write_request address ws)))
        ≡ ok (request_text address ws, m)
  unfolding analyze_modbus_packet analyze_function analyze_body analyze_write function_name
  analyze-write_request m address [] h = absurd (omega arith)
  analyze-write_request m address (w ∷ []) h = absurd (omega arith)
  analyze-write_request m address (w1 ∷ w2 ∷ ws) h =
      let all = w1 ∷ w2 ∷ ws in
      let half : 2 * length all / 2 ≡ length all = omega arith in
      let value : word (address / 256) (address % 256) ≡ address = omega arith in
      let front =
        16
        ∷ (address / 256)
        ∷ (address % 256)
        ∷ (length all / 256)
        ∷ (length all % 256)
        ∷ (2 * length all)
        ∷ [] in
      ground (arith, half, value, registers-register_bytes all 0 6 address front refl)
