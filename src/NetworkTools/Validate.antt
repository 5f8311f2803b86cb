-- ===== src/NetworkTools/Validate.antt =====
-- validateIP of networktools.h: which texts it takes for addresses.
use ot_tcp_listener.Prelude.{
  ℕ, ◌+◌, ◌<◌, true, false, List, [], ◌∷◌, ◌++◌, ◌≡◌, ◌≢◌, refl, sym, ◌∙◌, ap, inl, inr, Text,
  codes, All, All-append, arith, append-nil, Bool-cases,
}
use ot_tcp_listener.Prelude.Outcome.{ok, fault, invalid_argument}
use ot_tcp_listener.Net.{Ip, inet_ntoa}
use ot_tcp_listener.Net.Decimal.{
  IsDigit, value, to_string, value-to_string, to_string-IsDigit, to_string-ne-nil,
}
use ot_tcp_listener.Net.Stoi.{StopsDigits, stoi-to_string, stoi_bracket}
use ot_tcp_listener.NetworkTools.{
  is_number_char, all_number_chars, is_number, text_eq, check_tokens, validate_ip,
}
use ot_tcp_listener.NetworkTools.Split.{Lacks, pieces, split-pieces, pieces-Lacks, pieces_delimiter}

-- Dotted decimal with something behind it.
abbrev pub dotted : Ip → Text → Text
dotted x junk =
    to_string x.a
    ++ b'.' ∷ (to_string x.b ++ b'.' ∷ (to_string x.c ++ b'.' ∷ (to_string x.d ++ junk)))

abbrev pub IsOctets : Ip → Type 0
IsOctets x = (x.a < 256) × (x.b < 256) × (x.c < 256) × (x.d < 256)

abbrev pub NumberChar : ℕ → Type 0
NumberChar c = is_number_char c ≡ true

digits-Lacks : (s : Text) → All IsDigit s → Lacks b'.' s
digits-Lacks [] h = tt
digits-Lacks (c ∷ s) h = (omega arith, digits-Lacks s h.1)

chars-Lacks : (s : Text) → All NumberChar s → Lacks b'.' s
unfolding is_number_char
chars-Lacks [] h = tt
chars-Lacks (c ∷ s) h = (ground arith, chars-Lacks s h.1)

digits-NumberChar : (s : Text) → All IsDigit s → All NumberChar s
unfolding is_number_char
digits-NumberChar [] h = tt
digits-NumberChar (c ∷ s) h = (ground arith, digits-NumberChar s h.1)

pub all_number_chars-All : (s : Text) → All NumberChar s → all_number_chars s ≡ true
all_number_chars-All [] h = refl
all_number_chars-All (c ∷ s) h = rw (h.0, all_number_chars-All s h.1)

is_number-append :
    (s t : Text) → s ≢ [] → All NumberChar s → All NumberChar t → is_number (s ++ t) ≡ true
unfolding is_number
is_number-append [] t ne h k = absurd (ne refl)
is_number-append (c ∷ s) t ne h k =
    all_number_chars-All ((c ∷ s) ++ t) (All-append NumberChar (c ∷ s) t h k)

pub to_string-Lacks : (n : ℕ) → Lacks b'.' (to_string n)
to_string-Lacks n = digits-Lacks (to_string n) (to_string-IsDigit n)

module _ (x : Ip) (junk : Text) (chars : All NumberChar junk) where
  All-append-Lacks : (s t : Text) → Lacks b'.' s → Lacks b'.' t → Lacks b'.' (s ++ t)
  All-append-Lacks [] t h k = k
  All-append-Lacks (c ∷ s) t h k = (h.0, All-append-Lacks s t h.1 k)

  pub pieces-dotted :
      pieces b'.' (dotted x junk)
      ≡ to_string x.a ∷ to_string x.b ∷ to_string x.c ∷ (to_string x.d ++ junk) ∷ []
  pieces-dotted = rw (
    pieces_delimiter b'.' (to_string x.a) _ (to_string-Lacks x.a),
    pieces_delimiter b'.' (to_string x.b) _ (to_string-Lacks x.b),
    pieces_delimiter b'.' (to_string x.c) _ (to_string-Lacks x.c),
    pieces-Lacks b'.' (to_string x.d ++ junk)
        (All-append-Lacks (to_string x.d) junk (to_string-Lacks x.d) (chars-Lacks junk chars)),
  )

-- A token that is the decimal text of an octet, perhaps with brackets behind it, is passed over.
check_tokens_octet :
    (n : ℕ) (junk : Text) (list : List Text)
    → n < 256
    → All NumberChar junk
    → StopsDigits junk
    → check_tokens ((to_string n ++ junk) ∷ list) ≡ check_tokens list
unfolding check_tokens
check_tokens_octet n junk list h chars stop =
    rw
      (
        is_number-append (to_string n) junk (to_string-ne-nil n)
            (digits-NumberChar (to_string n) (to_string-IsDigit n)) chars,
        stoi-to_string n junk (omega arith) stop,
      )
      (ground arith)

check_tokens_plain :
    (n : ℕ) (list : List Text) → n < 256 → check_tokens (to_string n ∷ list) ≡ check_tokens list
check_tokens_plain n list h =
    rw (append-nil (to_string n)) at (check_tokens_octet n [] list h tt tt)

pub text_eq→≡ : (s t : Text) → text_eq s t ≡ true → s ≡ t
text_eq→≡ [] [] h = refl
text_eq→≡ [] (d ∷ t) h = cc
text_eq→≡ (c ∷ s) [] h = cc
text_eq→≡ (c ∷ s) (d ∷ t) h = ground (arith, text_eq→≡ s t)

pub text_ne : (s t : Text) → s ≢ t → text_eq s t ≡ false
text_ne s t h = elim (Bool-cases (text_eq s t)) [ inl e ↦ absurd (h (text_eq→≡ s t e)) | inr e ↦ e ]

pub check_tokens_nil : check_tokens [] ≡ ok true
unfolding check_tokens
check_tokens_nil = refl

-- validateIP accepts four octets in dotted decimal, also with a bracket behind the last one and
-- whatever digits and brackets follow it, if the text is not 0.0.0.0.
pub validate_ip-dotted :
    (x : Ip) (junk : Text)
    → IsOctets x
    → All NumberChar junk
    → StopsDigits junk
    → dotted x junk ≢ codes "0.0.0.0"
    → validate_ip (dotted x junk) ≡ ok true
unfolding validate_ip
validate_ip-dotted x junk (a, b, c, d) chars stop nonzero = rw (
  split-pieces (dotted x junk) b'.',
  pieces-dotted x junk chars,
  check_tokens_plain x.a _ a,
  check_tokens_plain x.b _ b,
  check_tokens_plain x.c _ c,
  check_tokens_octet x.d junk [] d chars stop,
  check_tokens_nil,
  text_ne (dotted x junk) (codes "0.0.0.0") nonzero,
)

-- validateIP throws std::invalid_argument on a text of four tokens whose first is an opening
-- bracket followed by brackets and digits only.
pub validate_ip_bracket :
    (t1 t2 t3 t4 : Text)
    → All NumberChar t1
    → Lacks b'.' t2
    → Lacks b'.' t3
    → Lacks b'.' t4
    → validate_ip ((b'[' ∷ t1) ++ b'.' ∷ (t2 ++ b'.' ∷ (t3 ++ b'.' ∷ t4))) ≡ fault invalid_argument
unfolding validate_ip check_tokens is_number is_number_char
validate_ip_bracket t1 t2 t3 t4 h1 h2 h3 h4 = rw (
  split-pieces ((b'[' ∷ t1) ++ b'.' ∷ (t2 ++ b'.' ∷ (t3 ++ b'.' ∷ t4))) b'.',
  pieces_delimiter b'.' (b'[' ∷ t1) _ (omega arith, chars-Lacks t1 h1),
  pieces_delimiter b'.' t2 _ h2,
  pieces_delimiter b'.' t3 _ h3,
  pieces-Lacks b'.' t4 h4,
  all_number_chars-All t1 h1,
  stoi_bracket t1,
)

zero_of_text : (n : ℕ) → to_string n ≡ b'0' ∷ [] → n ≡ 0
zero_of_text n e = sym (value-to_string n) ∙ ap (value 0) e

pub inet_ntoa-dotted : (x : Ip) → inet_ntoa x ≡ dotted x []
unfolding inet_ntoa
inet_ntoa-dotted x = rw (append-nil (to_string x.d))

zero_tokens : pieces b'.' (codes "0.0.0.0") ≡ codes "0" ∷ codes "0" ∷ codes "0" ∷ codes "0" ∷ []
unfolding pieces
zero_tokens = refl

inet_ntoa-ne_zero : (x : Ip) → 0 < x.a + x.b + x.c + x.d → dotted x [] ≢ codes "0.0.0.0"
inet_ntoa-ne_zero x h e =
    let tokens = sym (pieces-dotted x [] tt) ∙ ap (pieces b'.') e ∙ zero_tokens in
    ground (
      arith,
      tokens,
      append-nil (to_string x.d),
      zero_of_text x.a,
      zero_of_text x.b,
      zero_of_text x.c,
      zero_of_text x.d,
    )

-- What inet_ntoa prints of an address other than 0.0.0.0 is accepted.
pub validate_ip-inet_ntoa :
    (x : Ip) → IsOctets x → 0 < x.a + x.b + x.c + x.d → validate_ip (inet_ntoa x) ≡ ok true
validate_ip-inet_ntoa x octets h =
    rw (inet_ntoa-dotted x) (validate_ip-dotted x [] octets tt tt (inet_ntoa-ne_zero x h))
