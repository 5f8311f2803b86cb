-- ===== src/NetworkTools/Answer.antt =====
-- validateIP of networktools.h: what it says of any text.
use ot_tcp_listener.Prelude.{
  ℕ, ◌^◌, ◌≤◌, ◌<◌, Bool, true, false, ◌&&◌, List, [], ◌∷◌, ◌++◌, ◌≡◌, ◌≢◌, refl, ap, ◌⊎◌, inl, inr,
  Text, codes, All, length, arith, Bool-cases, if◌then◌else◌, ◌==◌, ltb,
}
use ot_tcp_listener.Prelude.Int.{pos}
use ot_tcp_listener.Prelude.Outcome.{Outcome, ok, fault, invalid_argument, out_of_range, ◌>>=◌}
use ot_tcp_listener.Net.Decimal.{value}
use ot_tcp_listener.Net.Stoi.{is_digit, leading, stoi, stoi-leading, stoi_bracket, stoi_closing}
use ot_tcp_listener.NetworkTools.{
  is_number_char, all_number_chars, is_number, text_eq, check_tokens, validate_ip,
}
use ot_tcp_listener.NetworkTools.Split.{pieces, split-pieces}
use ot_tcp_listener.NetworkTools.Validate.{
  NumberChar, all_number_chars-All, text_eq→≡, check_tokens_nil,
}

-- A text of digits and brackets, with one character or more.
abbrev IsNumeric : Text → Type 0
IsNumeric t = (t ≢ []) × All NumberChar t

-- One that begins with the digits of a number below 256.
abbrev pub IsOctetText : Text → Type 0
IsOctetText t = IsNumeric t × (leading t ≢ []) × (value 0 (leading t) < 256)

-- The first token that is none of these, and what validateIP ends with there.
pub data Stops (t : Text) : Outcome Bool → Type 0 where
  other_text : ¬ IsNumeric t → Stops t (ok false)
  no_digit : IsNumeric t → leading t ≡ [] → Stops t (fault invalid_argument)
  no_int : IsNumeric t → 2 ^ 31 ≤ value 0 (leading t) → Stops t (fault out_of_range)
  no_octet :
      IsNumeric t
      → leading t ≢ []
      → 256 ≤ value 0 (leading t)
      → value 0 (leading t) < 2 ^ 31
      → Stops t (ok false)

pub data Checked (list : List Text) : Outcome Bool → Type 0 where
  all_octets : All IsOctetText list → Checked list (ok true)
  stops_at :
      (good : List Text) (t : Text) (rest : List Text) {o : Outcome Bool}
      → list ≡ good ++ t ∷ rest
      → All IsOctetText good
      → Stops t o
      → Checked list o

-- What validateIP says, by the pieces of the text between its dots.
pub data Answer (text : Text) : Outcome Bool → Type 0 where
  not_four : length (pieces b'.' text) ≢ 4 → Answer text (ok false)
  all_zero : text ≡ codes "0.0.0.0" → Answer text (ok false)
  tokens :
      {o : Outcome Bool}
      → length (pieces b'.' text) ≡ 4
      → text ≢ codes "0.0.0.0"
      → Checked (pieces b'.' text) o
      → Answer text o

All-all_number_chars : (s : Text) → all_number_chars s ≡ true → All NumberChar s
All-all_number_chars [] h = tt
All-all_number_chars (c ∷ s) h = ground (arith, All-all_number_chars s)

is_number-IsNumeric : (t : Text) → is_number t ≡ true → IsNumeric t
unfolding is_number
is_number-IsNumeric [] h = absurd (ground arith)
is_number-IsNumeric (c ∷ s) h = (cc, All-all_number_chars (c ∷ s) h)

IsNumeric-is_number : (t : Text) → IsNumeric t → is_number t ≡ true
unfolding is_number
IsNumeric-is_number [] h = absurd (h.0 refl)
IsNumeric-is_number (c ∷ s) h = all_number_chars-All (c ∷ s) h.1

NumberChar-cases : (c : ℕ) → NumberChar c → (is_digit c ≡ true) ⊎ ((c ≡ b'[') ⊎ (c ≡ b']'))
unfolding is_number_char
NumberChar-cases c h = ground arith

stoi_no_digit : (t : Text) → IsNumeric t → leading t ≡ [] → stoi t ≡ fault invalid_argument
stoi_no_digit [] h none = absurd (h.0 refl)
stoi_no_digit (c ∷ s) (_, (char, _)) none = elim (NumberChar-cases c char) [
  | inl digit ↦ absurd (ground (arith, digit, none))
  | inr (inl e) ↦ rw e (stoi_bracket s)
  | inr (inr e) ↦ rw e (stoi_closing s)
]

stoi_number :
    (t : Text)
    → leading t ≢ []
    → stoi t ≡ (
        if ltb (value 0 (leading t)) (2 ^ 31)
        then ok (pos (value 0 (leading t)))
        else fault out_of_range)
stoi_number [] h = absurd (h refl)
stoi_number (c ∷ s) h = elim (Bool-cases (is_digit c)) [
  | inl digit ↦ stoi-leading c s digit
  | inr other ↦ absurd (h (ground (arith, other)))
]

check_tokens_octet_text :
    (t : Text) (list : List Text) → IsOctetText t → check_tokens (t ∷ list) ≡ check_tokens list
unfolding check_tokens
check_tokens_octet_text t list (numeric, digit, small) =
    rw (IsNumeric-is_number t numeric, stoi_number t digit) (ground arith)

no_digits_number : (t : Text) → 2 ^ 31 ≤ value 0 (leading t) → leading t ≢ []
no_digits_number t h e = ground (arith, ap (value 0) e)

check_tokens-Stops :
    {t : Text} {o : Outcome Bool} (list : List Text) → Stops t o → check_tokens (t ∷ list) ≡ o
unfolding check_tokens
check_tokens-Stops {t} list (other_text h) = elim (Bool-cases (is_number t)) [
  | inl e ↦ absurd (h (is_number-IsNumeric t e))
  | inr e ↦ rw e refl
]
check_tokens-Stops {t} list (no_digit numeric h) =
    rw (IsNumeric-is_number t numeric, stoi_no_digit t numeric h) refl
check_tokens-Stops {t} list (no_int numeric h) =
    rw (IsNumeric-is_number t numeric, stoi_number t (no_digits_number t h)) (ground arith)
check_tokens-Stops {t} list (no_octet numeric digit h k) =
    rw (IsNumeric-is_number t numeric, stoi_number t digit) (ground arith)

-- Whether validateIP goes on behind a token.
data GoesOn (t : Text) : Type 0 where
  passes : IsOctetText t → GoesOn t
  stops : {o : Outcome Bool} → Stops t o → GoesOn t

digits-GoesOn : (t : Text) → IsNumeric t → leading t ≢ [] → GoesOn t
digits-GoesOn t numeric digit = elim (Bool-cases (ltb (value 0 (leading t)) 256)) [
  | inl small ↦ passes (numeric, digit, ground (arith, small))
  | inr large ↦ elim (Bool-cases (ltb (value 0 (leading t)) (2 ^ 31))) [
    | inl int ↦ stops (no_octet numeric digit (ground (arith, large)) (ground (arith, int)))
    | inr more ↦ stops (no_int numeric (ground (arith, more)))
  ]
]

nil-cases : (t : Text) → (t ≡ []) ⊎ (t ≢ [])
nil-cases [] = inl refl
nil-cases (c ∷ s) = inr cc

text-GoesOn : (t : Text) → GoesOn t
text-GoesOn t = elim (Bool-cases (is_number t)) [
  | inr e ↦ stops (other_text λ h. ground (arith, e, IsNumeric-is_number t h))
  | inl e ↦ elim (nil-cases (leading t)) [
    | inl none ↦ stops (no_digit (is_number-IsNumeric t e) none)
    | inr digit ↦ digits-GoesOn t (is_number-IsNumeric t e) digit
  ]
]

Checked-pass :
    (t : Text) {list : List Text} {o : Outcome Bool}
    → IsOctetText t
    → Checked list o
    → Checked (t ∷ list) o
Checked-pass t h (all_octets all) = all_octets (h, all)
Checked-pass t h (stops_at good u rest e all stop) =
    stops_at (t ∷ good) u rest (ap (◌∷◌ t) e) (h, all) stop

check_tokens-Checked : (list : List Text) → Checked list (check_tokens list)
check_tokens-Checked [] = rw check_tokens_nil (all_octets tt)
check_tokens-Checked (t ∷ list) = elim (text-GoesOn t) [
  | passes h ↦ rw (check_tokens_octet_text t list h) (Checked-pass t h (check_tokens-Checked list))
  | stops s ↦ rw (check_tokens-Stops list s) (stops_at [] t list refl tt s)
]

good_and_true : (o : Outcome Bool) → (do good ← o; ok (good && true)) ≡ o
good_and_true (ok true) = refl
good_and_true (ok false) = refl
good_and_true (fault e) = refl

zero_octets : check_tokens (pieces b'.' (codes "0.0.0.0")) ≡ ok true
unfolding check_tokens pieces is_number is_number_char stoi
zero_octets = refl

zero_text_eq : text_eq (codes "0.0.0.0") (codes "0.0.0.0") ≡ true
zero_text_eq = refl

-- Of every text, by its pieces between the dots: validateIP refuses a text that has not four of
-- them, or that is 0.0.0.0. Of any other it accepts four that consist of digits and brackets and
-- begin with a number below 256, and otherwise ends at the first that is not such: it refuses one
-- that is empty or has another character, throws std::invalid_argument on one that begins with a
-- bracket, std::out_of_range on a number from 2^31 on, and refuses a smaller one from 256 on.
pub validate_ip-Answer : (text : Text) → Answer text (validate_ip text)
unfolding validate_ip
validate_ip-Answer text =
    rw (split-pieces text b'.') (elim (Bool-cases (length (pieces b'.' text) == 4)) [
      | inr other ↦ rw other (not_four (ground (arith, other)))
      | inl four ↦ rw four (elim (Bool-cases (text_eq text (codes "0.0.0.0"))) [
        | inl zero_text ↦
            let e = text_eq→≡ text (codes "0.0.0.0") zero_text in
            let octets : check_tokens (pieces b'.' text) ≡ ok true = rw e zero_octets in
            rw (octets, zero_text) (all_zero e)
        | inr other ↦
            let nonzero : text ≢ codes "0.0.0.0" =
              λ e. ground (arith, other, zero_text_eq, ap (λ t. text_eq t (codes "0.0.0.0")) e) in
            rw (other, good_and_true (check_tokens (pieces b'.' text)))
              (tokens (ground (arith, four)) nonzero (check_tokens-Checked (pieces b'.' text)))
      ])
    ])
