-- ===== src/Modbus.antt =====
-- modbus.h and modbus.cpp: the class Modbus, which turns Modbus/TCP payloads into text.
-- A buffer is the list of its bytes, and a read past its end is a fault. `malloc` succeeds for every
-- size that is not negative, and buffers are shorter than 2^31 bytes, so no `int` overflows.
pub mod Registers
pub mod Blind
pub mod Faults
pub mod Reading
pub mod Payload
pub mod Stream
pub mod Tail
pub mod Fuel
mod Examples
use ot_tcp_listener.Prelude.{
  ℕ, zero, suc, ◌+◌, ◌-◌, ◌*◌, ◌/◌, ◌%◌, ◌^◌, Bool, true, false, ◌||◌, List, [], ◌∷◌, ◌++◌, Option,
  none, some, Bytes, Text, codes, length, ltb, ◌==◌, if◌then◌else◌,
}
use ot_tcp_listener.Prelude.Int.{ℤ, pos, negsuc, sub_ℕ}
use ot_tcp_listener.Prelude.Outcome.{
  Fault, out_of_fuel, no_return, Outcome, ok, fault, ◌>>=◌, read, copy,
}
use ot_tcp_listener.Qt.{Qt}

-- `texts` is the member `data`, a QStringList.
pub record Modbus : Type 0 where
  pub texts : List Text
  pub last_address : ℕ

-- `Modbus modbus{}`
abbrev pub init : Modbus
init = record { texts = []; last_address = 0 }

-- `packet[i] << 8 | packet[j]` of two bytes
abbrev pub word : ℕ → ℕ → ℕ
word hi lo = hi * 256 + lo

-- `(qint16) value`
unfoldable pub qint16 : ℕ → ℤ
qint16 w = if ltb w (2 ^ 15) then pos w else negsuc (2 ^ 16 - w - 1)

unfoldable pub function_name : ℕ → Text
function_name f =
    if f == 1
    then codes "Read Coil Status"
    else if f == 2
    then codes "Read Input Status"
    else if f == 3
    then codes "Read Holding Registers"
    else if f == 4
    then codes "Read Input Registers"
    else if f == 5
    then codes "Force Single Coil"
    else if f == 6
    then codes "Preset Single Register"
    else if f == 8
    then codes "Diagnostics"
    else if f == 15
    then codes "Force Multiple Coils"
    else if f == 16
    then codes "Preset Multiple Registers"
    else codes "Unknown function"

-- sizeof(struct sniff_modbus_tcp)
abbrev pub header_size : ℕ
header_size = 7

-- QString::isEmpty
abbrev pub is_empty : Text → Bool
is_empty [] = true
is_empty (c ∷ s) = false

module _ (qt : Qt) where
  open qt use {number, arg, to_hex, join}

  -- What a round of the two register loops appends.
  abbrev pub register_text : ℕ → ℕ → Text
  register_text address value = number (pos address) ++ (codes ":" ++ number (qint16 value))

  -- `for (i; i < i + n; i++)` over the registers that start at `first`
  unfoldable pub registers : ℕ → ℕ → ℕ → ℕ → Bytes → Outcome (List Text)
  registers zero i first base packet = ok []
  registers (suc n) i first base packet = do
    hi ← read packet (first + i * 2)
    lo ← read packet (first + i * 2 + 1)
    rest ← registers n (i + 1) first base packet
    ok (register_text (base + i) (word hi lo) ∷ rest)

  -- `function == 3 || function == 4`
  unfoldable pub analyze_read : Modbus → Bytes → ℕ → ℕ → ℕ → ℕ → Outcome (List Text × Modbus)
  analyze_read m packet len count address points =
      let values = do texts ← registers (count / 2) 0 2 m.last_address packet; ok (texts, m)
      in let start =
          codes "Start:" ++ (number (pos address) ++ (codes " Length:" ++ number (pos points))) in
        if ltb 8 len then values else ok (start ∷ [], record m { last_address = address })

  -- `function == 16`
  unfoldable pub analyze_write : Modbus → Bytes → ℕ → ℕ → Outcome (List Text × Modbus)
  analyze_write m packet len address =
      let values = do
        count ← read packet 5
        texts ← registers (count / 2) 0 6 address packet
        ok (texts, m)
      in if ltb 8 len then values else ok ([], m)

  -- What follows the function's name in `reply`, for a function that is no exception and a
  -- `length` of at least 8.
  unfoldable pub analyze_body : Modbus → Bytes → ℕ → ℕ → Outcome (List Text × Modbus)
  analyze_body m packet len function = do
    p1 ← read packet 1
    p2 ← read packet 2
    p3 ← read packet 3
    p4 ← read packet 4
    let address = word p1 p2
    let points = word p3 p4
    let subfunction =
        codes "Subfunction:" ++ (number (pos address) ++ (codes " Length:" ++ number (pos len)))
    if function == 3 || function == 4
        then analyze_read m packet len p1 address points
        else if function == 8
        then ok (subfunction ∷ [], m)
        else if function == 16
        then analyze_write m packet len address
        else ok ([], m)

  -- The branches of a `length` of at least 5. With the exception bit set the function ends without
  -- a `return`.
  unfoldable pub analyze_function : Modbus → Bytes → ℕ → ℕ → Outcome (Text × Modbus)
  analyze_function m packet len function =
      let reply = codes "Function:" ++ function_name (function % 128) in
      let body = do
        (more, m') ← analyze_body m packet len function
        ok (join (reply ∷ more) (codes ";"), m')
      in if function / 128 % 2 == 1 then fault no_return else if ltb len 8 then ok ([], m) else body

  -- The result is the null QString, here the empty text, where the packet is too short.
  unfoldable pub analyze_modbus_packet : Modbus → Bytes → ℤ → Outcome (Text × Modbus)
  analyze_modbus_packet m packet (negsuc n) = ok ([], m)
  analyze_modbus_packet m packet (pos len) =
      let long_enough = do function ← read packet 0; analyze_function m packet len function
      in if ltb len 5 then ok ([], m) else long_enough

  -- The texts that one Modbus/TCP unit adds to `data`.
  unfoldable pub unit_texts : ℕ → ℕ → Bytes → Text → List Text
  unit_texts transaction_id modbus_tcp_lenght databuf reply =
      let report =
        arg (codes "Transaction Id:%1") (number (pos transaction_id))
        ∷ arg (codes "Lenght:%1") (number (sub_ℕ modbus_tcp_lenght 1))
        ∷ arg (codes "Hex:%1") (to_hex databuf b':')
        ∷ [] in
      if is_empty reply then report else report ++ reply ∷ []

  -- What a call does once it knows that the unit is whole; `rest` is the recursive call. Where the
  -- length field is 0, `malloc(-1)` gives the null pointer, nothing is copied and `databuf` is null.
  unfoldable pub process_unit :
      (Modbus → Bytes → Outcome (Modbus × Option Text))
      → Modbus
      → Bytes
      → ℕ
      → ℕ
      → Outcome (Modbus × Option Text)
  process_unit rest m packet transaction_id modbus_tcp_lenght = do
    temp ← copy (modbus_tcp_lenght - 1) header_size packet
    (reply, m') ← analyze_modbus_packet m temp (sub_ℕ modbus_tcp_lenght 1)
    let texts = m'.texts ++ unit_texts transaction_id modbus_tcp_lenght temp reply
    let offset = modbus_tcp_lenght + header_size - 1
    let more = do
      remainig ← copy (length packet - offset) offset packet
      rest (record m' { texts = texts }) remainig
    if ltb offset (length packet)
        then more
        else ok (record m' { texts = [] }, some (join texts (codes ";")))

  -- One call, and the recursive calls that it makes: the Modbus object afterwards, and the value of
  -- modbus_data["modbus"] if it is set. The fuel stands for the depth of the recursion.
  unfoldable pub process_modbus_packet : ℕ → Modbus → Bytes → Outcome (Modbus × Option Text)
  process_modbus_packet zero m packet = fault out_of_fuel
  process_modbus_packet (suc fuel) m packet = do
    l1 ← read packet 4
    l2 ← read packet 5
    t1 ← read packet 0
    t2 ← read packet 1
    let modbus_tcp_lenght = word l1 l2
    let enough = process_unit (process_modbus_packet fuel) m packet (word t1 t2) modbus_tcp_lenght
    if ltb (length packet) (modbus_tcp_lenght + 6) then ok (m, none) else enough
