-- ===== src/Modbus/Examples.antt =====
-- Runs of the Modbus analysis on concrete payloads, with a small stand-in for Qt.
use ot_tcp_listener.Prelude.{ℕ, List, [], ◌∷◌, ◌++◌, ◌≡◌, refl, Bytes, codes, arith, none, some}
use ot_tcp_listener.Prelude.Int.{pos, sub_ℕ}
use ot_tcp_listener.Prelude.Outcome.{out_of_bounds, ok, ◌>>=◌, copy, HasFuel}
use ot_tcp_listener.Modbus.{
  init, registers, analyze_modbus_packet, analyze_function, analyze_body, analyze_read,
  analyze_write, unit_texts, process_unit, process_modbus_packet, function_name, qint16,
}
use ot_tcp_listener.Modbus.Registers.{read_response, write_request}
use ot_tcp_listener.Modbus.Faults.{EndsAs, analyze_faults}
use ot_tcp_listener.Modbus.Stream.{
  ModbusUnit, stream, unit_bytes, tell, tell_all, hand_out, process_modbus_packet-stream,
}
use ot_tcp_listener.Modbus.Tail.{process_modbus_packet-truncated}
use ot_tcp_listener.Modbus.Payload.{more, cut, decode, tell_payload, process_modbus_packet-decode}
use ot_tcp_listener.Modbus.Reading.{overrun, read_pdu}
use ot_tcp_listener.Modbus.Fuel.{process_modbus_packet-HasFuel}
use ot_tcp_listener.Qt.Sample.{sample}

abbrev four : List ℕ
four = 1 ∷ 0xffff ∷ 0x1234 ∷ 7 ∷ []

-- A response with four registers, and a request to write two.
abbrev answer : ModbusUnit
answer = record { transaction = 7; protocol = 0; address = 1; pdu = read_response 3 four }

abbrev order : ModbusUnit
order = record { transaction = 8; protocol = 0; address = 1; pdu = write_request 300 (5 ∷ 6 ∷ []) }

answer_run :
    analyze_modbus_packet sample init answer.pdu (pos 10)
    ≡ ok (codes "Function:Read Holding Registers;0:1;1:-1;2:4660;3:7", init)
unfolding analyze_modbus_packet analyze_function analyze_body analyze_read function_name registers
    qint16 sample
answer_run = refl

payload_run :
    process_modbus_packet sample 100 init (stream (answer ∷ order ∷ []))
    ≡ ok (
      init,
      some (
          codes
            "Transaction Id:7;Lenght:10;Hex:03:08:00:01:ff:ff:12:34:00:07;Function:Read Holding Registers;0:1;1:-1;2:4660;3:7;Transaction Id:8;Lenght:10;Hex:10:01:2c:00:02:04:00:05:00:06;Function:Preset Multiple Registers;300:5;301:6"),
    )
unfolding process_modbus_packet process_unit copy analyze_modbus_packet analyze_function
    analyze_body analyze_read analyze_write function_name registers qint16 unit_texts sub_ℕ sample
payload_run = refl

-- A response whose byte count promises 100 registers and that carries four.
abbrev short_response : Bytes
short_response = 3 ∷ 200 ∷ 0 ∷ 1 ∷ 0 ∷ 2 ∷ 0 ∷ 3 ∷ 0 ∷ 4 ∷ []

analyze_faults_example :
    EndsAs (some out_of_bounds) (analyze_modbus_packet sample init short_response (pos 10))
analyze_faults_example = analyze_faults sample init short_response

process_modbus_packet-stream_example :
    process_modbus_packet sample 50 init (stream (answer ∷ []) ++ unit_bytes order)
    ≡ (tell_all sample init (answer ∷ []) >>= λ m. tell sample m order >>= hand_out sample)
process_modbus_packet-stream_example =
    process_modbus_packet-stream sample (answer ∷ []) order 50 init (omega arith)

process_modbus_packet-truncated_example :
    process_modbus_packet sample 50 init
      (stream (answer ∷ []) ++ 0 ∷ 8 ∷ 0 ∷ 0 ∷ 0 ∷ 11 ∷ 1 ∷ 16 ∷ [])
    ≡ (tell_all sample init (answer ∷ []) >>= λ m. ok (m, none))
process_modbus_packet-truncated_example =
    process_modbus_packet-truncated sample (answer ∷ []) 0 8 0 0 0 11 (1 ∷ 16 ∷ []) 50 init
      (omega arith) (omega arith)

process_modbus_packet-HasFuel_example :
    HasFuel (process_modbus_packet sample 18 init (unit_bytes answer))
process_modbus_packet-HasFuel_example =
    process_modbus_packet-HasFuel sample 18 init (unit_bytes answer) (omega arith)

-- A whole unit and the beginning of another one.
abbrev cut_payload : Bytes
cut_payload = stream (answer ∷ []) ++ 0 ∷ 8 ∷ 0 ∷ 0 ∷ 0 ∷ 11 ∷ 1 ∷ 16 ∷ []

cut_payload_decoded :
    decode cut_payload ≡ more (record { transaction = 7; declared = 11; pdu = answer.pdu }) cut
unfolding decode
cut_payload_decoded = refl

process_modbus_packet-decode_example :
    process_modbus_packet sample 50 init cut_payload ≡ tell_payload sample init (decode cut_payload)
process_modbus_packet-decode_example =
    process_modbus_packet-decode sample 50 init cut_payload (omega arith)

short_response_read : read_pdu 0 short_response ≡ overrun
short_response_read = refl
