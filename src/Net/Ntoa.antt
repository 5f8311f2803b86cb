-- ===== src/Net/Ntoa.antt =====
-- The texts of inet_ntoa: what they are made of, and how long they are.
use ot_tcp_listener.Prelude.{
  ℕ, ◌+◌, ◌≤◌, ◌<◌, Bool, [], ◌∷◌, ◌++◌, none, ◌≡◌, ◌≢◌, refl, Text, All, All-append, codes, length,
  leb, arith, length-append,
}
use ot_tcp_listener.Prelude.Search.{exception_below, no_exception}
use ot_tcp_listener.Net.{Ip, inet_ntoa}
use ot_tcp_listener.Net.Decimal.{IsDigit, to_string, to_string-IsDigit}

abbrev pub NonZero : ℕ → Type 0
NonZero c = c ≢ 0

IsDigit-NonZero : (s : Text) → All IsDigit s → All NonZero s
IsDigit-NonZero [] h = tt
IsDigit-NonZero (c ∷ s) h = ((λ e. omega (arith, h.0)), IsDigit-NonZero s h.1)

to_string-NonZero : (n : ℕ) → All NonZero (to_string n)
to_string-NonZero n = IsDigit-NonZero (to_string n) (to_string-IsDigit n)

-- A byte has at most three digits.
abbrev is_short : ℕ → Bool
is_short n = leb (length (to_string n)) 3

bytes_short : exception_below is_short 256 ≡ none
unfolding exception_below to_string
bytes_short = refl

pub length-to_string : (n : ℕ) → n < 256 → length (to_string n) ≤ 3
length-to_string n h = ground (arith, no_exception is_short 256 n h bytes_short)

-- Three digits, a dot and the rest.
dotted-NonZero :
    (n : ℕ) (rest : Text) → All NonZero rest → All NonZero (to_string n ++ (codes "." ++ rest))
dotted-NonZero n rest h =
    All-append NonZero (to_string n) (codes "." ++ rest) (to_string-NonZero n)
      ((λ e. omega arith), h)

length-dotted :
    (n k : ℕ) (rest : Text)
    → n < 256
    → length rest ≤ k
    → length (to_string n ++ (codes "." ++ rest)) ≤ k + 4
length-dotted n k rest h l =
    omega (arith, length-append (to_string n) (codes "." ++ rest), length-to_string n h)

pub inet_ntoa-NonZero : (x : Ip) → All NonZero (inet_ntoa x)
unfolding inet_ntoa
inet_ntoa-NonZero x =
    dotted-NonZero x.a _ (dotted-NonZero x.b _ (dotted-NonZero x.c _ (to_string-NonZero x.d)))

-- An address has at most 15 characters.
pub length-inet_ntoa :
    (x : Ip) → x.a < 256 → x.b < 256 → x.c < 256 → x.d < 256 → length (inet_ntoa x) ≤ 15
unfolding inet_ntoa
length-inet_ntoa x a b c d =
    length-dotted x.a 11 _ a
      (length-dotted x.b 7 _ b (length-dotted x.c 3 _ c (length-to_string x.d d)))
