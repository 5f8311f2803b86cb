-- ===== src/NetworkTools/Convert.antt =====
-- get_IP_from_int and get_int_from_IP of networktools.h.
use ot_tcp_listener.Prelude.{
  ℕ, suc, ◌+◌, ◌-◌, ◌*◌, ◌/◌, ◌%◌, ◌^◌, ◌<◌, [], ◌∷◌, ◌++◌, none, some, ◌≡◌, refl, ◌∙◌, ap, Text,
  length, drop, lt→ltb, arith, append-nil, ne→==, eq→==, length-append, take-length_append,
}
use ot_tcp_listener.Prelude.Int.{ℤ, pos}
use ot_tcp_listener.Prelude.Outcome.{ok}
use ot_tcp_listener.Net.{Ip, inet_ntoa}
use ot_tcp_listener.Net.Decimal.{to_string}
use ot_tcp_listener.Net.Stoi.{stoi, stoi-to_string}
use ot_tcp_listener.NetworkTools.{
  index_of, substr, shift_int, decrement, int_loop, get_int_from_ip, get_ip_from_int,
}
use ot_tcp_listener.NetworkTools.Split.{Lacks}
use ot_tcp_listener.NetworkTools.Validate.{dotted, to_string-Lacks, inet_ntoa-dotted}

-- The octets of a 32-bit number, the high one first.
abbrev pub octets : ℕ → Ip
octets n = record {
  a = n / 256 / 256 / 256 % 256;
  b = n / 256 / 256 % 256;
  c = n / 256 % 256;
  d = n % 256;
}

-- get_IP_from_int prints the low 32 bits of its argument as inet_ntoa prints an address of these
-- octets, the high one first.
pub get_ip_from_int-inet_ntoa : (n : ℕ) → get_ip_from_int n ≡ inet_ntoa (octets n)
unfolding get_ip_from_int inet_ntoa
get_ip_from_int-inet_ntoa n = rw (append-nil (to_string (n % 256)))

index_of-append : (d : ℕ) (s rest : Text) → Lacks d s → index_of d (s ++ d ∷ rest) ≡ some (length s)
unfolding index_of
index_of-append d [] rest h = rw (eq→== d d refl)
index_of-append d (c ∷ s) rest h = rw (ne→== c d h.0, index_of-append d s rest h.1)

index_of-Lacks : (d : ℕ) (s : Text) → Lacks d s → index_of d s ≡ none
unfolding index_of
index_of-Lacks d [] h = refl
index_of-Lacks d (c ∷ s) h = rw (ne→== c d h.0, index_of-Lacks d s h.1)

drop_token : (s rest : Text) (d : ℕ) → drop (length s + 1) (s ++ d ∷ rest) ≡ rest
drop_token [] rest d = refl
drop_token (c ∷ s) rest d =
    let e : suc (length s) + 1 ≡ suc (length s + 1) = omega arith in rw e (drop_token s rest d)

stoi_plain : (n : ℕ) → n < 256 → stoi (to_string n) ≡ ok (pos n)
stoi_plain n h = rw (append-nil (to_string n)) at (stoi-to_string n [] (omega arith) tt)

-- One round of the loop, on a token that fits and a shift that keeps it an `int`.
int_loop_round :
    (fuel val k n : ℕ) (rest : Text)
    → n < 256
    → n * 2 ^ (8 * k) < 2 ^ 31
    → int_loop (suc fuel) val (pos k) (to_string n ++ b'.' ∷ rest)
      ≡ int_loop fuel ((val + n * 2 ^ (8 * k)) % 2 ^ 64) (decrement (pos k)) rest
unfolding int_loop substr shift_int
int_loop_round fuel val k n rest h fits = rw (
  index_of-append b'.' (to_string n) rest (to_string-Lacks n),
  int_loop,
  take-length_append (to_string n) (b'.' ∷ rest),
  stoi_plain n h,
  drop_token (to_string n) rest b'.',
  lt→ltb (n * 2 ^ (8 * k)) (2 ^ 31) fits,
)

last_token :
    (fuel val : ℕ) (count : ℤ) (n : ℕ) → int_loop (suc fuel) val count (to_string n ++ []) ≡ ok val
unfolding int_loop
last_token fuel val count n =
    rw (append-nil (to_string n), index_of-Lacks b'.' (to_string n) (to_string-Lacks n), int_loop)

-- get_int_from_IP drops the last octet: of an address below 128.0.0.0 it gives the number with its
-- low eight bits cleared.
pub get_int_from_ip-dotted :
    (x : Ip)
    → x.a < 128
    → x.b < 256
    → x.c < 256
    → get_int_from_ip (dotted x []) ≡ ok (((x.a * 256 + x.b) * 256 + x.c) * 256)
unfolding get_int_from_ip
get_int_from_ip-dotted x a b c =
    let r3 = to_string x.d ++ [] in
    let r2 = to_string x.c ++ b'.' ∷ r3 in
    let r1 = to_string x.b ++ b'.' ∷ r2 in
    let size = length (dotted x []) in
    let fuel : suc size ≡ suc (suc (suc (suc (size - 3)))) = omega (
      arith,
      length-append (to_string x.a) (b'.' ∷ r1),
      length-append (to_string x.b) (b'.' ∷ r2),
      length-append (to_string x.c) (b'.' ∷ r3),
    ) in
    rw
      (
        fuel,
        int_loop_round (suc (suc (suc (size - 3)))) 0 3 x.a r1 (omega arith) (omega arith),
        int_loop_round (suc (suc (size - 3))) ((0 + x.a * 2 ^ 24) % 2 ^ 64) 2 x.b r2 b
            (omega arith),
        int_loop_round (suc (size - 3)) (((0 + x.a * 2 ^ 24) % 2 ^ 64 + x.b * 2 ^ 16) % 2 ^ 64) 1
            x.c r3 c (omega arith),
        last_token (size - 3) _ (decrement (pos 1)) x.d,
      )
      (ap ok (omega arith))

-- Of every number below 2^31, get_IP_from_int and get_int_from_IP give the number back with its
-- low eight bits cleared.
pub get_int_from_ip-get_ip_from_int :
    (n : ℕ) → n < 2 ^ 31 → get_int_from_ip (get_ip_from_int n) ≡ ok (n - n % 256)
get_int_from_ip-get_ip_from_int n h =
    rw (get_ip_from_int-inet_ntoa n, inet_ntoa-dotted (octets n))
      (get_int_from_ip-dotted (octets n) (omega arith) (omega arith) (omega arith)
        ∙ ap ok (omega arith))
