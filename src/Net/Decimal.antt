-- ===== src/Net/Decimal.antt =====
-- std::to_string of a number that is not negative, and what its digits stand for.
use ot_tcp_listener.Prelude.{
  ℕ, zero, suc, ◌+◌, ◌-◌, ◌*◌, ◌/◌, ◌%◌, ◌≤◌, ◌<◌, [], ◌∷◌, ◌≡◌, ◌≢◌, Text, ltb, if◌then◌else◌,
  arith, All,
}

-- The digits of `n`, the last one first found; a number has at most as many digits as `fuel`
-- allows, since `n < fuel`.
digits : ℕ → ℕ → Text → Text
digits zero n out = out
digits (suc fuel) n out =
    let more = digits fuel (n / 10) ((b'0' + n % 10) ∷ out) in
    if ltb n 10 then (b'0' + n) ∷ out else more

unfoldable pub to_string : ℕ → Text
unfolding digits
to_string n = digits (suc n) n []

abbrev pub IsDigit : ℕ → Type 0
IsDigit c = (b'0' ≤ c) × (c ≤ b'9')

-- The number that digits spell behind `n`.
abbrev pub value : ℕ → Text → ℕ
value n [] = n
value n (c ∷ s) = value (n * 10 + (c - b'0')) s

value-digits : (fuel n : ℕ) (out : Text) → n < fuel → value 0 (digits fuel n out) ≡ value n out
unfolding digits
value-digits zero n out h = absurd (omega arith)
value-digits (suc fuel) n out h =
    let last : n / 10 * 10 + (b'0' + n % 10 - b'0') ≡ n = omega arith in
    ground (arith, last, value-digits fuel (n / 10) ((b'0' + n % 10) ∷ out))

-- The digits spell the number.
pub value-to_string : (n : ℕ) → value 0 (to_string n) ≡ n
unfolding to_string
value-to_string n = value-digits (suc n) n [] (omega arith)

digits-IsDigit :
    (fuel n : ℕ) (out : Text) → n < fuel → All IsDigit out → All IsDigit (digits fuel n out)
unfolding digits
digits-IsDigit zero n out h d = d
digits-IsDigit (suc fuel) n out h d =
    ground (arith, digits-IsDigit fuel (n / 10) ((b'0' + n % 10) ∷ out))

pub to_string-IsDigit : (n : ℕ) → All IsDigit (to_string n)
unfolding to_string
to_string-IsDigit n = digits-IsDigit (suc n) n [] (omega arith) tt

digits-ne-nil : (fuel n : ℕ) (out : Text) → n < fuel → digits fuel n out ≢ []
unfolding digits
digits-ne-nil zero n out h = absurd (omega arith)
digits-ne-nil (suc fuel) n out h =
    ground (arith, digits-ne-nil fuel (n / 10) ((b'0' + n % 10) ∷ out))

pub to_string-ne-nil : (n : ℕ) → to_string n ≢ []
unfolding to_string
to_string-ne-nil n = digits-ne-nil (suc n) n [] (omega arith)
