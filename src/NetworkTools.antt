-- ===== src/NetworkTools.antt =====
-- networktools.h: the helpers on texts and addresses.
pub mod Split
pub mod Validate
pub mod Answer
pub mod Tokens
pub mod Address
pub mod Convert
pub mod Clean
pub mod Device
pub mod Ports
pub mod Shell
pub mod Sockets
pub mod Software
pub mod Iptos
pub mod System
pub mod DeviceSample
mod Examples
mod CallExamples
use mathlib.Core.Option
use ot_tcp_listener.Prelude.{
  ℕ, zero, suc, ◌+◌, ◌-◌, ◌*◌, ◌/◌, ◌%◌, ◌^◌, Bool, true, false, not, ◌&&◌, ◌||◌, List, [], ◌∷◌,
  ◌++◌, Option, none, some, Text, codes, length, take, drop, ltb, leb, ◌==◌, if◌then◌else◌,
}
use ot_tcp_listener.Prelude.Int.{ℤ, pos, negsuc}
use ot_tcp_listener.Prelude.Outcome.{Outcome, ok, fault, bad_shift, out_of_fuel, ◌>>=◌}
use ot_tcp_listener.Net.Decimal.{to_string}
use ot_tcp_listener.Net.Stoi.{stoi}

-- std::string::find of a character, from the front and from a position on.
unfoldable pub index_of : ℕ → Text → Option ℕ
index_of d [] = none
index_of d (c ∷ s) = if c == d then some 0 else Option.map suc (index_of d s)

unfoldable pub find : Text → ℕ → ℕ → Option ℕ
find s d from = Option.map (λ k. from + k) (index_of d (drop from s))

-- std::string::substr from a position inside the text
unfoldable pub substr : Text → ℕ → ℕ → Text
substr s i n = take n (drop i s)

-- The loop of `split` and what follows it, `at` being the source's `pos`; the fuel is above the number of rounds.
unfoldable pub split_loop : ℕ → Text → ℕ → ℕ → Option ℕ → List Text → List Text
split_loop zero str delim i at list = list
split_loop (suc fuel) str delim i none list = list ++ substr str i (length str) ∷ []
split_loop (suc fuel) str delim i (some at) list =
    split_loop fuel str delim (at + 1) (find str delim (at + 1))
      (list ++ substr str i (at - i) ∷ [])

unfoldable pub split : Text → ℕ → List Text
split str delim = split_loop (suc (length str)) str delim 0 (find str delim 0) []

-- The characters of "[0123456789]".
unfoldable pub is_number_char : ℕ → Bool
is_number_char c = c == b'[' || (leb b'0' c && leb c b'9' || c == b']')

-- `find_first_not_of(…) == npos`
abbrev pub all_number_chars : Text → Bool
all_number_chars [] = true
all_number_chars (c ∷ s) = is_number_char c && all_number_chars s

unfoldable pub is_number : Text → Bool
is_number [] = false
is_number (c ∷ s) = all_number_chars (c ∷ s)

abbrev pub text_eq : Text → Text → Bool
text_eq [] [] = true
text_eq [] (d ∷ t) = false
text_eq (c ∷ s) [] = false
text_eq (c ∷ s) (d ∷ t) = c == d && text_eq s t

-- `n > 255 || n < 0`
abbrev pub off_range : ℤ → Bool
off_range (pos n) = ltb 255 n
off_range (negsuc n) = true

-- The loop over the tokens: whether it runs to its end.
unfoldable pub check_tokens : List Text → Outcome Bool
check_tokens [] = ok true
check_tokens (str ∷ list) =
    let rest = check_tokens list in
    let number = do n ← stoi str; if off_range n then ok false else rest
    in if is_number str then number else ok false

unfoldable pub validate_ip : Text → Outcome Bool
validate_ip ip =
    let list = split ip b'.' in
    let checked = do good ← check_tokens list; ok (good && not (text_eq ip (codes "0.0.0.0")))
    in if length list == 4 then checked else ok false

-- One round of get_IP_from_int, `i` being the counter: the text so far and what is left of `a`.
unfoldable pub prepend_byte : ℕ → ℕ × Text → ℕ × Text
prepend_byte i (a, ip) =
    let text = to_string (a % 256) ++ ip in (a / 2 ^ 8, if ltb i 3 then codes "." ++ text else text)

unfoldable pub get_ip_from_int : ℕ → Text
unfolding prepend_byte
get_ip_from_int a = (prepend_byte 3 (prepend_byte 2 (prepend_byte 1 (prepend_byte 0 (a, []))))).1

-- `(unsigned long)(token << n)` of an `int`: a bit shifted into the sign makes the sum negative, and
-- is extended; a bit shifted past it, a negative token and a negative `n` are undefined.
unfoldable pub shift_int : ℤ → ℤ → Outcome ℕ
shift_int (pos t) (pos n) =
    if ltb (t * 2 ^ n) (2 ^ 31)
    then ok (t * 2 ^ n)
    else if ltb (t * 2 ^ n) (2 ^ 32)
    then ok (t * 2 ^ n + (2 ^ 64 - 2 ^ 32))
    else fault bad_shift
shift_int (pos t) (negsuc n) = fault bad_shift
shift_int (negsuc t) n = fault bad_shift

abbrev pub decrement : ℤ → ℤ
decrement (pos zero) = negsuc 0
decrement (pos (suc n)) = pos n
decrement (negsuc n) = negsuc (suc n)

-- `8 * count`
abbrev pub eight_times : ℤ → ℤ
eight_times (pos n) = pos (8 * n)
eight_times (negsuc n) = negsuc (8 * n + 7)

-- The loop of get_int_from_IP over what is left of `IP`; the fuel is above the number of dots.
unfoldable pub int_loop : ℕ → ℕ → ℤ → Text → Outcome ℕ
int_loop zero val count ip = fault out_of_fuel
int_loop (suc fuel) val count ip = elim (index_of b'.' ip) [
  | none ↦ ok val
  | some at ↦ do
    token ← stoi (substr ip 0 at)
    part ← shift_int token (eight_times count)
    int_loop fuel ((val + part) % 2 ^ 64) (decrement count) (drop (at + 1) ip)
]

unfoldable pub get_int_from_ip : Text → Outcome ℕ
get_int_from_ip ip = int_loop (suc (length ip)) 0 (pos 3) ip
