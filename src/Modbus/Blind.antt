-- ===== src/Modbus/Blind.antt =====
-- Read queries and short read responses as Modbus::analyzeModbusPacket takes them: it wants 8 bytes
-- where a query has 5.
use ot_tcp_listener.Prelude.{ℕ, ◌/◌, ◌%◌, ◌<◌, [], ◌∷◌, ◌++◌, ◌≡◌, ◌⊎◌, codes, arith, Bytes}
use ot_tcp_listener.Prelude.Int.{pos}
use ot_tcp_listener.Prelude.Outcome.{ok}
use ot_tcp_listener.Qt.{Qt}
use ot_tcp_listener.Modbus.{
  Modbus, word, analyze_modbus_packet, analyze_function, analyze_body, analyze_read, function_name,
}
use ot_tcp_listener.Modbus.Registers.{read_response}

-- The protocol data unit that asks for `points` registers, or coils, from `address` on.
abbrev pub read_query : ℕ → ℕ → ℕ → Bytes
read_query function address points =
    function ∷ (address / 256) ∷ (address % 256) ∷ (points / 256) ∷ (points % 256) ∷ []

module _ (qt : Qt) (m : Modbus) where
  -- Every query for registers or coils comes out as the empty text, and its start address is not
  -- remembered.
  pub analyze-read_query :
      (function address points : ℕ)
      → function < 128
      → analyze_modbus_packet qt m (read_query function address points) (pos 5) ≡ ok ([], m)
  unfolding analyze_modbus_packet analyze_function
  analyze-read_query function address points h = ground arith

  -- A response that carries three registers is taken for a query: the text tells a start address
  -- made of the byte count and half a register, and that address is remembered.
  pub analyze-three_registers :
      (function a b c : ℕ)
      → (function ≡ 3) ⊎ (function ≡ 4)
      → let start = word 6 (a / 256) in
        analyze_modbus_packet qt m (read_response function (a ∷ b ∷ c ∷ [])) (pos 8)
        ≡ ok (
          qt.join
              ((codes "Function:" ++ function_name function)
                ∷ (codes "Start:"
                    ++ (qt.number (pos start)
                        ++ (codes " Length:" ++ qt.number (pos (word (a % 256) (b / 256))))))
                ∷ [])
              (codes ";"),
          record m { last_address = start },
        )
  unfolding analyze_modbus_packet analyze_function analyze_body analyze_read
  analyze-three_registers function a b c f = ground arith
