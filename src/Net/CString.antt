-- ===== src/Net/CString.antt =====
-- C strings: what a buffer holds up to its first zero, and sprintf into a buffer.
use ot_tcp_listener.Prelude.{
  ◌+◌, ◌≤◌, ◌<◌, [], ◌∷◌, ◌++◌, ◌≡◌, ◌≢◌, refl, Bytes, Text, All, length, drop, ltb, ◌==◌,
  if◌then◌else◌, arith, lt→ltb, le→ltb_false, length-append, length-drop,
}
use ot_tcp_listener.Prelude.Outcome.{Outcome, ok, fault, out_of_bounds}

-- What a text is as a C string: it ends before its first zero.
unfoldable pub c_string : Text → Text
c_string [] = []
c_string (c ∷ s) = let rest = c_string s in if c == 0 then [] else c ∷ rest

-- sprintf of a text into a buffer: the text and a zero, over the first bytes of the buffer.
unfoldable pub write_string : Bytes → Text → Outcome Bytes
write_string buffer text =
    if ltb (length text) (length buffer)
    then ok (text ++ 0 ∷ drop (length text + 1) buffer)
    else fault out_of_bounds

pub c_string-nonzero : (s : Text) → All (λ c. c ≢ 0) s → c_string s ≡ s
unfolding c_string
c_string-nonzero [] h = refl
c_string-nonzero (c ∷ s) h = ground (arith, h.0, c_string-nonzero s h.1)

-- A text with a zero behind it is read back, whatever follows.
pub c_string-append : (s : Text) (rest : Bytes) → All (λ c. c ≢ 0) s → c_string (s ++ 0 ∷ rest) ≡ s
unfolding c_string
c_string-append [] rest h = refl
c_string-append (c ∷ s) rest h = ground (arith, h.0, c_string-append s rest h.1)

-- A text that fits is written, and the buffer keeps its size.
pub write_string_fits :
    (buffer : Bytes) (text : Text)
    → length text < length buffer
    → (write_string buffer text ≡ ok (text ++ 0 ∷ drop (length text + 1) buffer))
      × (length (text ++ 0 ∷ drop (length text + 1) buffer) ≡ length buffer)
unfolding write_string
write_string_fits buffer text h = (
  rw (lt→ltb (length text) (length buffer) h),
  omega (
    arith,
    length-append text (0 ∷ drop (length text + 1) buffer),
    length-drop (length text + 1) buffer,
  ),
)

pub write_string_long :
    (buffer : Bytes) (text : Text)
    → length buffer ≤ length text
    → write_string buffer text ≡ fault out_of_bounds
unfolding write_string
write_string_long buffer text h = rw (le→ltb_false (length text) (length buffer) h)
