-- ===== src/Modbus/Reading.antt =====
-- Modbus::analyzeModbusPacket against a reading of protocol data units: a unit is parsed first, and
-- what was parsed is told then.
use mathlib.Core.Option
use ot_tcp_listener.Prelude.{
  ℕ, zero, suc, ◌+◌, ◌*◌, ◌/◌, ◌%◌, ◌||◌, List, [], ◌∷◌, ◌++◌, Option, none, some, ◌≡◌, refl, sym,
  Bytes, Text, codes, length, drop, ltb, ◌==◌, if◌then◌else◌, arith, get_elem?, get_elem?-drop,
  drop-drop,
}
use ot_tcp_listener.Prelude.Int.{pos}
use ot_tcp_listener.Prelude.Outcome.{Outcome, ok, fault, no_return, out_of_bounds}
use ot_tcp_listener.Qt.{Qt}
use ot_tcp_listener.Modbus.{
  Modbus, word, function_name, registers, analyze_read, analyze_write, analyze_body,
  analyze_function, analyze_modbus_packet,
}
use ot_tcp_listener.Modbus.Registers.{register_texts}

-- What a protocol data unit says.
pub data Reading : Type 0 where
  -- nothing that is told
  unread : Reading
  -- the exception bit is set
  exception : Reading
  -- more registers are promised than there are
  overrun : Reading
  -- registers and the address of the first one
  values : ℕ → List ℕ → Reading
  -- a query, by its start and its number of registers
  query : ℕ → ℕ → Reading
  -- a diagnostic subfunction and the size of the unit
  diagnostics : ℕ → ℕ → Reading
  -- a function of which the name alone is told
  named : Reading

abbrev pub big_endian : ℕ → ℕ → ℕ
big_endian hi lo = hi * 256 + lo

-- A number of big-endian words from the front of some bytes.
abbrev pub words : ℕ → Bytes → Option (List ℕ)
words zero p = some []
words (suc n) [] = none
words (suc n) (hi ∷ []) = none
words (suc n) (hi ∷ lo ∷ p) = Option.map (λ ws. big_endian hi lo ∷ ws) (words n p)

abbrev pub values_from : ℕ → Option (List ℕ) → Reading
values_from base none = overrun
values_from base (some ws) = values base ws

-- A unit of the function `f` with at least five bytes; `last` is the address that is remembered.
abbrev pub read_body : ℕ → ℕ → ℕ → ℕ → ℕ → ℕ → Bytes → Reading
read_body last f p1 p2 p3 p4 [] = unread
read_body last f p1 p2 p3 p4 (p5 ∷ rest) =
    let size = length rest + 6 in
    if ltb size 8
    then unread
    else if f == 3 || f == 4
    then if ltb 8 size
      then values_from last (words (p1 / 2) (p2 ∷ p3 ∷ p4 ∷ p5 ∷ rest))
      else query (big_endian p1 p2) (big_endian p3 p4)
    else if f == 8
    then diagnostics (big_endian p1 p2) size
    else if f == 16
    then if ltb 8 size then values_from (big_endian p1 p2) (words (p5 / 2) rest) else named
    else named

abbrev pub read_pdu : ℕ → Bytes → Reading
read_pdu last (f ∷ p1 ∷ p2 ∷ p3 ∷ p4 ∷ rest) =
    if f / 128 % 2 == 1 then exception else read_body last f p1 p2 p3 p4 rest
read_pdu last _ = unread

abbrev pub function_of : Bytes → ℕ
function_of [] = 0
function_of (f ∷ rest) = f

module _ (qt : Qt) where
  -- The function's name and some more texts.
  abbrev pub reply : Bytes → List Text → Text
  reply pdu more =
      qt.join ((codes "Function:" ++ function_name (function_of pdu % 128)) ∷ more) (codes ";")

  -- How a reading is told: the text and the object afterwards, or the fault.
  abbrev pub tell_reading : Modbus → Bytes → Reading → Outcome (Text × Modbus)
  tell_reading m pdu unread = ok ([], m)
  tell_reading m pdu exception = fault no_return
  tell_reading m pdu overrun = fault out_of_bounds
  tell_reading m pdu (values base ws) = ok (reply pdu (register_texts qt base 0 ws), m)
  tell_reading m pdu (query start points) =
      let text =
        codes "Start:" ++ (qt.number (pos start) ++ (codes " Length:" ++ qt.number (pos points))) in
      ok (reply pdu (text ∷ []), record m { last_address = start })
  tell_reading m pdu (diagnostics subfunction size) =
      let text =
        codes "Subfunction:"
        ++ (qt.number (pos subfunction) ++ (codes " Length:" ++ qt.number (pos size))) in
      ok (reply pdu (text ∷ []), m)
  tell_reading m pdu named = ok (reply pdu [], m)

  abbrev texts_from : ℕ → ℕ → Option (List ℕ) → Outcome (List Text)
  texts_from base i none = fault out_of_bounds
  texts_from base i (some ws) = ok (register_texts qt base i ws)

  -- A byte of what is left of a buffer.
  left_byte : (p rest : Bytes) (n i : ℕ) → drop n p ≡ rest → get_elem? p (n + i) ≡ get_elem? rest i
  left_byte p rest n i e = rw (← e) (sym (get_elem?-drop n p i))

  -- The register loop reads words, and has the fault of the first bad read if there are too few.
  registers-words :
      (n i first base : ℕ) (p rest : Bytes)
      → drop (first + i * 2) p ≡ rest
      → registers qt n i first base p ≡ texts_from base i (words n rest)
  unfolding registers
  registers-words zero i first base p rest e = refl
  registers-words (suc n) i first base p [] e =
      let high = left_byte p [] (first + i * 2) 0 e in ground (arith, high)
  registers-words (suc n) i first base p (hi ∷ []) e =
      let high = left_byte p (hi ∷ []) (first + i * 2) 0 e in
      let low = left_byte p (hi ∷ []) (first + i * 2) 1 e in ground (arith, high, low)
  registers-words (suc n) i first base p (hi ∷ lo ∷ rest) e =
      let high = left_byte p (hi ∷ lo ∷ rest) (first + i * 2) 0 e in
      let low = left_byte p (hi ∷ lo ∷ rest) (first + i * 2) 1 e in
      let further : first + (i + 1) * 2 ≡ first + i * 2 + 2 = omega arith in
      let rest_follows : drop (first + (i + 1) * 2) p ≡ rest =
        rw (further, ← drop-drop (first + i * 2) 2 p, e) in
      let next = registers-words n (i + 1) first base p rest rest_follows in
      ground (arith, high, low, next)

  pub analyze-read_pdu :
      (m : Modbus) (pdu : Bytes)
      → analyze_modbus_packet qt m pdu (pos (length pdu))
        ≡ tell_reading m pdu (read_pdu m.last_address pdu)
  unfolding analyze_modbus_packet analyze_function analyze_body analyze_read analyze_write
  analyze-read_pdu m [] = refl
  analyze-read_pdu m (a ∷ []) = refl
  analyze-read_pdu m (a ∷ b ∷ []) = refl
  analyze-read_pdu m (a ∷ b ∷ c ∷ []) = refl
  analyze-read_pdu m (a ∷ b ∷ c ∷ d ∷ []) = ground arith
  analyze-read_pdu m (a ∷ b ∷ c ∷ d ∷ e ∷ []) = ground arith
  analyze-read_pdu m (a ∷ b ∷ c ∷ d ∷ e ∷ f ∷ rest) =
      let p = a ∷ b ∷ c ∷ d ∷ e ∷ f ∷ rest in
      let read_words = registers-words (b / 2) 0 2 m.last_address p (c ∷ d ∷ e ∷ f ∷ rest) refl in
      let write_words = registers-words (f / 2) 0 6 (word b c) p rest refl in
      ground (arith, read_words, write_words)
