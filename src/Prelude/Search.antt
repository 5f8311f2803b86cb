-- ===== src/Prelude/Search.antt =====
-- A property of all numbers below a bound, by looking for an exception.
use Prim.Native.Nat.{ℕ, zero, suc, ◌<◌}
use mathlib.Core.Path.{◌≡◌}
use mathlib.Core.Bool.{Bool, true}
use mathlib.Core.Option.{Option, none, some}
use native.Mathlib.Omega.{arith}
use ot_tcp_listener.Prelude.Tests.{if◌then◌else◌}

-- The largest exception below a bound.
unfoldable pub exception_below : (ℕ → Bool) → ℕ → Option ℕ
exception_below holds zero = none
exception_below holds (suc bound) =
    let rest = exception_below holds bound in if holds bound then rest else some bound

pub no_exception :
    (holds : ℕ → Bool) (bound n : ℕ)
    → n < bound
    → exception_below holds bound ≡ none
    → holds n ≡ true
unfolding exception_below
no_exception holds zero n small none_found = absurd (omega arith)
no_exception holds (suc bound) n small none_found = ground (arith, no_exception holds bound n)
