-- ===== src/NetworkTools/Tokens.antt =====
-- get_int_from_IP of networktools.h: what it makes of any text.
use ot_tcp_listener.Prelude.{
  ℕ, zero, suc, ◌+◌, ◌%◌, ◌^◌, ◌<◌, List, [], ◌∷◌, Option, none, some, ◌≡◌, ◌≢◌, refl, Text, length,
  drop, take, arith, length-drop,
}
use ot_tcp_listener.Prelude.Int.{ℤ, pos}
use ot_tcp_listener.Prelude.Outcome.{Outcome, ok, ◌>>=◌, >>=-cong}
use ot_tcp_listener.Net.Stoi.{stoi}
use ot_tcp_listener.NetworkTools.{
  index_of, substr, shift_int, decrement, eight_times, int_loop, get_int_from_ip, split,
}
use ot_tcp_listener.NetworkTools.Split.{pieces, FirstAt, first_at, pieces-ne-nil, split-pieces}

-- The sum of the tokens but the last one, each shifted by eight bits less than the one before it.
unfoldable pub sum_tokens : ℕ → ℤ → List Text → Outcome ℕ
sum_tokens val count [] = ok val
sum_tokens val count (t ∷ []) = ok val
sum_tokens val count (t ∷ u ∷ list) = do
  token ← stoi t
  part ← shift_int token (eight_times count)
  sum_tokens ((val + part) % 2 ^ 64) (decrement count) (u ∷ list)

sum_tokens_more :
    (val : ℕ) (count : ℤ) (t : Text) (list : List Text)
    → list ≢ []
    → sum_tokens val count (t ∷ list) ≡ (do
      token ← stoi t
      part ← shift_int token (eight_times count)
      sum_tokens ((val + part) % 2 ^ 64) (decrement count) list)
unfolding sum_tokens
sum_tokens_more val count t [] more = absurd (more refl)
sum_tokens_more val count t (u ∷ list) more = refl

-- One round, `rest` being the statement about the rounds that follow.
int_loop_first :
    (fuel val : ℕ) (count : ℤ) (ip : Text) (o : Option ℕ)
    → index_of b'.' ip ≡ o
    → FirstAt b'.' ip o
    → ((val' : ℕ) (count' : ℤ) (ip' : Text)
        → length ip' < length ip
        → int_loop fuel val' count' ip' ≡ sum_tokens val' count' (pieces b'.' ip'))
    → int_loop (suc fuel) val count ip ≡ sum_tokens val count (pieces b'.' ip)
unfolding int_loop substr
int_loop_first fuel val count ip none e first rest =
    rw (e, int_loop, first) (unfold sum_tokens in refl)
int_loop_first fuel val count ip (some at) e (lt, first) rest =
    let tail = drop (at + 1) ip in
    rw
      (
        e,
        int_loop,
        first,
        sum_tokens_more val count (take at ip) (pieces b'.' tail) (pieces-ne-nil b'.' tail),
      )
      (>>=-cong (stoi (take at ip)) _ _ λ token read.
        >>=-cong (shift_int token (eight_times count)) _ _ λ part shifted.
          rest ((val + part) % 2 ^ 64) (decrement count) tail
            (omega (arith, length-drop (at + 1) ip)))

int_loop-pieces :
    (fuel val : ℕ) (count : ℤ) (ip : Text)
    → length ip < fuel
    → int_loop fuel val count ip ≡ sum_tokens val count (pieces b'.' ip)
int_loop-pieces zero val count ip enough = absurd (omega arith)
int_loop-pieces (suc fuel) val count ip enough =
    int_loop_first fuel val count ip (index_of b'.' ip) refl (first_at b'.' ip)
      λ val' count' ip' less. int_loop-pieces fuel val' count' ip' (omega arith)

-- Of every text, get_int_from_IP is a sum over the tokens of split but the last one, in 64 bits:
-- the first shifted by 24, each by eight bits less than the one before it; it ends at the first
-- token that std::stoi does not take, with its exception, or whose shift is undefined, as every
-- shift behind the fourth token is.
pub get_int_from_ip-split : (ip : Text) → get_int_from_ip ip ≡ sum_tokens 0 (pos 3) (split ip b'.')
unfolding get_int_from_ip
get_int_from_ip-split ip =
    rw (split-pieces ip b'.') (int_loop-pieces (suc (length ip)) 0 (pos 3) ip (omega arith))
