-- ===== src/NetworkTools/Iptos.antt =====
-- NetworkTools::iptos of networktools.h, with its twelve static buffers. The bytes of the `u_long`
-- lie in memory with the low one first.
pub mod Ring
use ot_tcp_listener.Prelude.{
  ℕ, zero, suc, ◌+◌, ◌*◌, ◌/◌, ◌%◌, ◌≤◌, ◌<◌, Bool, true, List, [], ◌∷◌, ◌++◌, Option, none, some,
  ◌≡◌, ◌≢◌, refl, sym, ◌∙◌, ap, Bytes, Text, All, length, get_elem?, leb, ◌==◌, if◌then◌else◌,
  arith, length-append,
}
use ot_tcp_listener.Prelude.Outcome.{Outcome, ok, out_of_bounds, or_fault, ◌>>=◌}
use ot_tcp_listener.Prelude.Search.{exception_below, no_exception}
use ot_tcp_listener.Net.{Ip, inet_ntoa}
use ot_tcp_listener.Net.Decimal.{to_string}
use ot_tcp_listener.Net.CString.{c_string, write_string, c_string-append, write_string_fits}

-- IPTOSBUFFERS, and the size of a buffer
abbrev pub iptos_buffers : ℕ
iptos_buffers = 12

abbrev pub buffer_size : ℕ
buffer_size = 3 * 4 + 3 + 1

-- The two static variables.
pub record Iptos : Type 0 where
  pub output : List Bytes
  pub which : ℕ

-- An element is replaced; out of range nothing is.
abbrev pub set {ℓ} : {A : Type ℓ} → List A → ℕ → A → List A
set [] i v = []
set (x ∷ xs) zero v = v ∷ xs
set (x ∷ xs) (suc i) v = x ∷ set xs i v

-- `p[0]` to `p[3]`
unfoldable pub address_bytes : ℕ → Ip
address_bytes n = record {
  a = n % 256;
  b = n / 256 % 256;
  c = n / 256 / 256 % 256;
  d = n / 256 / 256 / 256 % 256;
}

-- The pointer that is returned, by the number of its buffer, and the variables afterwards.
unfoldable pub iptos : ℕ → Iptos → Outcome (ℕ × Iptos)
iptos n s =
    let which = if s.which + 1 == iptos_buffers then 0 else s.which + 1 in
    do
      buffer ← or_fault out_of_bounds (get_elem? s.output which)
      written ← write_string buffer (inet_ntoa (address_bytes n))
      ok (which, record { output = set s.output which written; which = which })

-- The text behind a returned pointer.
abbrev pub text_of : Option Bytes → Option Text
text_of none = none
text_of (some buffer) = some (c_string buffer)

abbrev pub text_at : Iptos → ℕ → Option Text
text_at s k = text_of (get_elem? s.output k)

-- The variables have the shape that they are declared with.
pub record IsValid (s : Iptos) : Type 0 where
  pub buffers : length s.output ≡ iptos_buffers
  pub sizes : All (λ buffer. length buffer ≡ buffer_size) s.output
  pub which_in : s.which < iptos_buffers
