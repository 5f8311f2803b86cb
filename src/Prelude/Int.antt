-- ===== src/Prelude/Int.antt =====
-- Signed integers: C `int` values whose range the definitions state, as a sign and a native number.
use Prim.Native.Nat.{ℕ, ◌-◌, ◌%◌, ◌^◌, ◌<◌}
use mathlib.Core.Path.{◌≡◌}
use native.Mathlib.Omega.{arith}
use ot_tcp_listener.Prelude.Tests.{ltb, leb, if◌then◌else◌}

-- `negsuc n` is -(n + 1).
pub data ℤ : Type 0 where
  pos : ℕ → ℤ
  negsuc : ℕ → ℤ

-- a - b, as an integer.
unfoldable pub sub_ℕ : ℕ → ℕ → ℤ
sub_ℕ a b = if leb b a then pos (a - b) else negsuc (b - a - 1)

-- A value of `int` from the low 32 bits of a number.
unfoldable pub int32 : ℕ → ℤ
int32 n = let w = n % 2 ^ 32 in if ltb w (2 ^ 31) then pos w else negsuc (2 ^ 32 - w - 1)

-- An integer where it is above 0, and 0 otherwise: the rounds of a loop that counts up to it.
abbrev pub rounds : ℤ → ℕ
rounds (pos n) = n
rounds (negsuc n) = 0

pub int32_small : (n : ℕ) → n < 2 ^ 31 → int32 n ≡ pos n
unfolding int32
int32_small n h = ground arith
