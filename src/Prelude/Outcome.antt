-- ===== src/Prelude/Outcome.antt =====
-- What running a piece of C++ comes to: a value, or the way in which it leaves defined behaviour or
-- throws. Later steps of a `do` block are not reached after a fault.
use Prim.Native.Nat.{ℕ, zero, suc, ◌+◌, ◌<◌, ◌≤◌}
use mathlib.Core.Path.{◌≡◌, refl, ap}
use mathlib.Core.List.{[], ◌∷◌, ◌++◌, append_assoc}
use mathlib.Core.Logic.{◌⊎◌, ◌≢◌, inr}
use mathlib.Core.Option.{Option, none, some}
use native.Mathlib.Omega.{arith}
use ot_tcp_listener.Prelude.Lists.{
  Bytes, length, get_elem?, get_elem?-append_at, get_elem?-none, get_elem?-some, length-append,
  take, drop, drop-get_elem?,
}

pub data Fault : Type 0 where
  -- a read or a write past the end of a buffer
  out_of_bounds : Fault
  -- the end of a function with a result is reached with no `return`
  no_return : Fault
  -- a pointer that was never set is followed
  dangling : Fault
  -- a null pointer is followed
  null_pointer : Fault
  -- `std::invalid_argument`, `std::out_of_range`
  invalid_argument : Fault
  out_of_range : Fault
  -- `std::runtime_error`
  runtime_error : Fault
  -- a shift that C++ leaves undefined
  bad_shift : Fault
  -- none of the program's: the fuel of a definition did not suffice
  out_of_fuel : Fault

pub data Outcome {ℓ} (A : Type ℓ) : Type ℓ where
  ok : A → Outcome A
  fault : Fault → Outcome A

infixl 5 ◌>>=◌ ◌>>◌
abbrev pub ◌>>=◌ {ℓ κ} : {A : Type ℓ} {B : Type κ} → Outcome A → (A → Outcome B) → Outcome B
ok a >>= f = f a
fault e >>= f = fault e

abbrev pub ◌>>◌ {ℓ κ} : {A : Type ℓ} {B : Type κ} → Outcome A → Outcome B → Outcome B
m >> k = m >>= λ _. k

abbrev pub or_fault {ℓ} : {A : Type ℓ} → Fault → Option A → Outcome A
or_fault e none = fault e
or_fault e (some a) = ok a

pub >>=-assoc_cong {ℓ κ ι} :
    {A : Type ℓ} {B : Type κ} {C : Type ι} (o : Outcome A) (f : A → Outcome B) (g : B → Outcome C)
    {h : A → Outcome C}
    → ((a : A) → h a ≡ (f a >>= g))
    → (o >>= h) ≡ (o >>= f >>= g)
>>=-assoc_cong (ok a) f g e = e a
>>=-assoc_cong (fault x) f g e = refl

-- Inversion of a bind that succeeds.
pub >>=-eq-ok {ℓ κ} :
    {A : Type ℓ} {B : Type κ} (o : Outcome A) (f : A → Outcome B) {b : B}
    → (o >>= f) ≡ ok b
    → (a : A) × (o ≡ ok a) × (f a ≡ ok b)
>>=-eq-ok (ok a) f h = (a, refl, h)
>>=-eq-ok (fault x) f h = cc

pub >>=-cong {ℓ κ} :
    {A : Type ℓ} {B : Type κ} (o : Outcome A) (f g : A → Outcome B)
    → ((a : A) → o ≡ ok a → f a ≡ g a)
    → (o >>= f) ≡ (o >>= g)
>>=-cong (ok a) f g e = e a refl
>>=-cong (fault x) f g e = refl

-- The outcome is the program's own.
abbrev pub HasFuel {ℓ} : {A : Type ℓ} → Outcome A → Type ℓ
HasFuel o = o ≢ fault out_of_fuel

pub HasFuel-bind {ℓ κ} :
    {A : Type ℓ} {B : Type κ} (o : Outcome A) (f : A → Outcome B)
    → HasFuel o
    → ((a : A) → o ≡ ok a → HasFuel (f a))
    → HasFuel (o >>= f)
HasFuel-bind (ok a) f h k = k a refl
HasFuel-bind (fault x) f h k = λ e. h (ap fault (ground arith))

-- `p[i]`
abbrev pub read : Bytes → ℕ → Outcome ℕ
read p i = or_fault out_of_bounds (get_elem? p i)

pub read-HasFuel : (p : Bytes) (i : ℕ) → HasFuel (read p i)
read-HasFuel p i = ground arith

-- The loop `for (i = 0; i < n; ++i) to[i] = (p + offset)[i]`: the bytes that it copies.
unfoldable pub copy : ℕ → ℕ → Bytes → Outcome Bytes
copy zero offset p = ok []
copy (suc n) offset p = do b ← read p offset; rest ← copy n (offset + 1) p; ok (b ∷ rest)

-- Copying from the middle of a buffer gives the middle.
pub copy-middle :
    (front middle back : Bytes) (n offset : ℕ)
    → n ≡ length middle
    → offset ≡ length front
    → copy n offset (front ++ (middle ++ back)) ≡ ok middle
unfolding copy
copy-middle front [] back zero offset e e' = refl
copy-middle front [] back (suc n) offset e e' = absurd (omega arith)
copy-middle front (b ∷ middle) back zero offset e e' = absurd (omega arith)
copy-middle front (b ∷ middle) back (suc n) offset e e' =
    let here = get_elem?-append_at front ((b ∷ middle) ++ back) offset 0 (omega arith) in
    let rest =
      copy-middle (front ++ b ∷ []) middle back n (offset + 1) (omega arith)
        (omega (arith, length-append front (b ∷ []))) in
    rw (here, (rw (append_assoc front (b ∷ []) (middle ++ back)) at rest))

-- Copying from a buffer that is long enough.
pub copy-take :
    (n offset : ℕ) (p : Bytes)
    → offset + n ≤ length p
    → copy n offset p ≡ ok (take n (drop offset p))
unfolding copy
copy-take zero offset p h = refl
copy-take (suc n) offset p h =
    let (b, e) = get_elem?-some p offset (omega arith) in
    rw (e, drop-get_elem? p offset b e, copy-take n (offset + 1) p (omega arith))

-- A copy that runs past the end of the buffer is the fault of its first bad read.
pub copy_ends :
    (n offset : ℕ) (p : Bytes)
    → (copy n offset p ≡ fault out_of_bounds)
      ⊎ ((bytes : Bytes) × (copy n offset p ≡ ok bytes) × (length bytes ≡ n))
unfolding copy
copy_ends zero offset p = inr ([], refl, refl)
copy_ends (suc n) offset p = ground (arith, copy_ends n (offset + 1) p)

-- A copy of at least one byte that runs past the end of the buffer.
pub copy_short :
    (n offset : ℕ) (p : Bytes)
    → 0 < n
    → length p < offset + n
    → copy n offset p ≡ fault out_of_bounds
unfolding copy
copy_short zero offset p h short = absurd (omega arith)
copy_short (suc zero) offset p h short = rw (get_elem?-none p offset (omega arith))
copy_short (suc (suc n)) offset p h short =
    ground (arith, copy_short (suc n) (offset + 1) p (omega arith) (omega arith))
