-- ===== src/Arp/Memory.antt =====
-- allocate_strmem and allocate_ustrmem of arp.h.
use ot_tcp_listener.Prelude.{
  ℕ, ◌+◌, ◌<◌, Bool, true, [], ◌∷◌, ◌++◌, Option, none, some, ◌≡◌, Bytes, Text, codes, ◌==◌,
  if◌then◌else◌, replicate, arith,
}
use ot_tcp_listener.Prelude.Int.{ℤ, pos, negsuc}
use ot_tcp_listener.Net.Decimal.{to_string}

-- `%i`
abbrev pub int_text : ℤ → Text
int_text (pos n) = to_string n
int_text (negsuc n) = b'-' ∷ to_string (n + 1)

-- The two complaints of the function of a name.
abbrev pub bad_length : Text → ℤ → Text
bad_length name len =
    codes "ERROR: Cannot allocate memory because len = "
    ++ (int_text len ++ (codes " in " ++ (name ++ codes "().\n")))

abbrev pub no_memory : Text → Text
no_memory name = codes "ERROR: Cannot allocate memory for array " ++ (name ++ codes "().\n")

-- The body that the two functions share: the bytes behind the pointer, none for the null pointer, and
-- what goes to the standard error. `malloc` says whether that call succeeds.
unfoldable pub allocate_with : Text → Bool → ℤ → Option Bytes × Text
allocate_with name malloc (negsuc n) = (none, bad_length name (negsuc n))
allocate_with name malloc (pos n) =
    if n == 0
    then (none, bad_length name (pos n))
    else if malloc
    then (some (replicate n 0), [])
    else (none, no_memory name)

abbrev pub allocate_strmem : Bool → ℤ → Option Bytes × Text
allocate_strmem = allocate_with (codes "allocate_strmem")

abbrev pub allocate_ustrmem : Bool → ℤ → Option Bytes × Text
allocate_ustrmem = allocate_with (codes "allocate_ustrmem")

-- The buffer for the frame has the size that is asked for and holds zeros, whichever of the two
-- functions makes it, where malloc succeeds.
pub allocate_with_zeros :
    (name : Text) (n : ℕ) → 0 < n → allocate_with name true (pos n) ≡ (some (replicate n 0), [])
unfolding allocate_with
allocate_with_zeros name n h = ground arith
