-- ===== src/Qt/Sample.antt =====
-- A concrete stand-in for Qt that meets the laws, for runs on concrete inputs.
use ot_tcp_listener.Prelude.{
  ℕ, zero, suc, ◌+◌, ◌/◌, ◌%◌, List, [], ◌∷◌, ◌++◌, refl, Bytes, Text, ltb, ◌==◌, ◌≡◌, ◌≢◌, ◌∙◌, ap,
  All, codes, append-nil, append_assoc, ne→==, eq→==, if◌then◌else◌,
}
use ot_tcp_listener.Prelude.Int.{ℤ, pos, negsuc}
use ot_tcp_listener.Qt.{Qt}

-- The decimal digits of a number below 10 ^ fuel.
unfoldable pub digits : ℕ → ℕ → Text → Text
digits zero n out = out
digits (suc fuel) n out =
    let more = digits fuel (n / 10) ((b'0' + n % 10) ∷ out) in
    if ltb n 10 then (b'0' + n) ∷ out else more

unfoldable pub number : ℤ → Text
unfolding digits
number (pos n) = digits 20 n []
number (negsuc n) = b'-' ∷ digits 20 (n + 1) []

unfoldable pub hex_digit : ℕ → ℕ
hex_digit d = if ltb d 10 then b'0' + d else b'a' + (d % 10)

unfoldable pub to_hex : Bytes → ℕ → Text
unfolding hex_digit
to_hex [] sep = []
to_hex (b ∷ []) sep = hex_digit (b / 16) ∷ hex_digit (b % 16) ∷ []
to_hex (b ∷ rest) sep = hex_digit (b / 16) ∷ hex_digit (b % 16) ∷ sep ∷ to_hex rest sep

-- The text up to its place %1, the argument, and the text behind it.
unfoldable pub arg : Text → Text → Text
arg [] a = []
arg (c ∷ []) a = c ∷ []
arg (c ∷ d ∷ s) a = let rest = c ∷ arg (d ∷ s) a in if c == b'%' then a ++ s else rest

join : List Text → Text → Text
join [] sep = []
join (x ∷ []) sep = x
join (x ∷ y ∷ rest) sep = x ++ (sep ++ join (y ∷ rest) sep)

-- For a separator of one character.
split_on : ℕ → Text → Text → List Text
split_on sep [] piece = piece ∷ []
split_on sep (c ∷ s) piece =
    let cut = piece ∷ split_on sep s [] in
    let keep = split_on sep s (piece ++ c ∷ []) in if c == sep then cut else keep

split : Text → Text → List Text
unfolding split_on
split s [] = s ∷ []
split s (sep ∷ more) = split_on sep s []

unfoldable pub sample : Qt
unfolding number to_hex arg join split
sample = record {
  number = number;
  arg = arg;
  to_hex = to_hex;
  join = join;
  split = split;
  join-nil = λ sep. refl;
  join-singleton = λ x sep. refl;
  join-cons = λ x y rest sep. refl;
}

split_on-last :
    (sep : ℕ) (s piece : Text) → All (λ c. c ≢ sep) s → split_on sep s piece ≡ (piece ++ s) ∷ []
unfolding split_on
split_on-last sep [] piece h = rw (append-nil piece)
split_on-last sep (c ∷ s) piece h =
    rw (ne→== c sep h.0, split_on-last sep s (piece ++ c ∷ []) h.1, append_assoc piece (c ∷ []) s)

split_on-cut :
    (sep : ℕ) (s rest piece : Text)
    → All (λ c. c ≢ sep) s
    → split_on sep (s ++ sep ∷ rest) piece ≡ (piece ++ s) ∷ split_on sep rest []
unfolding split_on
split_on-cut sep [] rest piece h = rw (eq→== sep sep refl, append-nil piece)
split_on-cut sep (c ∷ s) rest piece h =
    rw (
      ne→== c sep h.0,
      split_on-cut sep s rest (piece ++ c ∷ []) h.1,
      append_assoc piece (c ∷ []) s,
    )

split-join :
    (sep : ℕ) (x : Text) (xs : List Text)
    → All (λ t. All (λ c. c ≢ sep) t) (x ∷ xs)
    → split (join (x ∷ xs) (sep ∷ [])) (sep ∷ []) ≡ x ∷ xs
unfolding split join
split-join sep x [] h = split_on-last sep x [] h.0
split-join sep x (y ∷ ys) h =
    split_on-cut sep x (join (y ∷ ys) (sep ∷ [])) [] h.0 ∙ ap (◌∷◌ x) (split-join sep y ys h.1)

-- The sample splits at semicolons what it has joined with them.
pub sample_splits :
    (x : Text) (xs : List Text)
    → All (λ t. All (λ c. c ≢ b';') t) (x ∷ xs)
    → sample.split (sample.join (x ∷ xs) (codes ";")) (codes ";") ≡ x ∷ xs
unfolding sample
sample_splits x xs h = split-join b';' x xs h
