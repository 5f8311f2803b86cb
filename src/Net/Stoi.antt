-- ===== src/Net/Stoi.antt =====
-- std::stoi: white space, a sign, and the digits that follow.
use ot_tcp_listener.Prelude.{
  ℕ, ◌+◌, ◌-◌, ◌*◌, ◌^◌, ◌<◌, Bool, true, false, ◌||◌, ◌&&◌, [], ◌∷◌, ◌++◌, Option, none, some, ◌≡◌,
  ◌≢◌, refl, Text, All, arith, ltb, leb, ◌==◌, if◌then◌else◌,
}
use ot_tcp_listener.Prelude.Int.{ℤ, pos, negsuc}
use ot_tcp_listener.Prelude.Outcome.{Outcome, ok, fault, invalid_argument, out_of_range}
use ot_tcp_listener.Net.Decimal.{
  IsDigit, value, to_string, value-to_string, to_string-IsDigit, to_string-ne-nil,
}

abbrev pub is_digit : ℕ → Bool
is_digit c = leb b'0' c && leb c b'9'

abbrev is_space : ℕ → Bool
is_space c = c == 32 || leb 9 c && leb c 13

skip_space : Text → Text
skip_space [] = []
skip_space (c ∷ s) = if is_space c then skip_space s else c ∷ s

-- The number of the digits at the front; `seen` says whether there has been one.
scan_digits : ℕ → Bool → Text → Option ℕ
scan_digits n seen [] = if seen then some n else none
scan_digits n seen (c ∷ s) =
    let more = scan_digits (n * 10 + (c - b'0')) true s in
    if is_digit c then more else if seen then some n else none

positive : Option ℕ → Outcome ℤ
positive none = fault invalid_argument
positive (some n) = if ltb n (2 ^ 31) then ok (pos n) else fault out_of_range

negative : Option ℕ → Outcome ℤ
negative none = fault invalid_argument
negative (some n) =
    if n == 0
    then ok (pos 0)
    else if leb n (2 ^ 31)
    then ok (negsuc (n - 1))
    else fault out_of_range

signed : Text → Outcome ℤ
unfolding scan_digits positive negative
signed [] = fault invalid_argument
signed (c ∷ s) =
    if c == b'-'
    then negative (scan_digits 0 false s)
    else if c == b'+'
    then positive (scan_digits 0 false s)
    else positive (scan_digits 0 false (c ∷ s))

unfoldable pub stoi : Text → Outcome ℤ
unfolding skip_space signed
stoi s = signed (skip_space s)

-- What does not go on with a digit.
abbrev pub StopsDigits : Text → Type 0
StopsDigits [] = Unit
StopsDigits (c ∷ s) = is_digit c ≡ false

scan_digits-append :
    (s rest : Text) (n : ℕ) (seen : Bool)
    → All IsDigit s
    → s ≢ []
    → StopsDigits rest
    → scan_digits n seen (s ++ rest) ≡ some (value n s)
unfolding scan_digits
scan_digits-append [] rest n seen d ne stop = absurd (ne refl)
scan_digits-append (c ∷ []) [] n seen d ne stop = ground arith
scan_digits-append (c ∷ []) (e ∷ rest) n seen d ne stop = ground arith
scan_digits-append (c ∷ c' ∷ s) rest n seen d ne stop =
    ground (arith, scan_digits-append (c' ∷ s) rest (n * 10 + (c - b'0')) true)

stoi_digits :
    (s rest : Text)
    → All IsDigit s
    → s ≢ []
    → StopsDigits rest
    → value 0 s < 2 ^ 31
    → stoi (s ++ rest) ≡ ok (pos (value 0 s))
unfolding skip_space signed positive stoi
stoi_digits [] rest d ne stop h = absurd (ne refl)
stoi_digits (c ∷ s) rest d ne stop h =
    ground (arith, scan_digits-append (c ∷ s) rest 0 false d ne stop)

-- The decimal text of an `int` is read back, whatever follows its digits.
pub stoi-to_string :
    (n : ℕ) (rest : Text) → n < 2 ^ 31 → StopsDigits rest → stoi (to_string n ++ rest) ≡ ok (pos n)
stoi-to_string n rest h stop =
    let spelled = value-to_string n in
    ground (
      arith,
      spelled,
      stoi_digits (to_string n) rest (to_string-IsDigit n) (to_string-ne-nil n) stop
          (omega (arith, spelled)),
    )

-- A text that begins with a bracket has no number at its front.
pub stoi_bracket : (s : Text) → stoi (b'[' ∷ s) ≡ fault invalid_argument
unfolding stoi
stoi_bracket s = refl

pub stoi_closing : (s : Text) → stoi (b']' ∷ s) ≡ fault invalid_argument
unfolding stoi
stoi_closing s = refl

-- The digits at the front of a text.
abbrev pub leading : Text → Text
leading [] = []
leading (c ∷ s) = let rest = leading s in if is_digit c then c ∷ rest else []

scan_digits-leading : (s : Text) (n : ℕ) → scan_digits n true s ≡ some (value n (leading s))
unfolding scan_digits
scan_digits-leading [] n = refl
scan_digits-leading (c ∷ s) n = ground (arith, scan_digits-leading s (n * 10 + (c - b'0')))

-- A text that begins with a digit gives the number of the digits at its front.
pub stoi-leading :
    (c : ℕ) (s : Text)
    → is_digit c ≡ true
    → stoi (c ∷ s) ≡ (
        if ltb (value 0 (leading (c ∷ s))) (2 ^ 31)
        then ok (pos (value 0 (leading (c ∷ s))))
        else fault out_of_range)
unfolding skip_space signed positive scan_digits stoi
stoi-leading c s h = ground (arith, scan_digits-leading s (c - b'0'))
