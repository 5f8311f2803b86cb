-- ===== src/NetworkTools/Sockets/Blocking.antt =====
-- What SetSocketBlockingEnabled returns and does to the flags, and what isPortOpen closes.
use ot_tcp_listener.Prelude.{
  ℕ, ◌-◌, ◌*◌, ◌/◌, ◌%◌, Bool, true, false, not, ◌&&◌, Option, none, some, ◌≡◌, refl, Bool-cases,
  inl, inr, if◌then◌else◌, arith,
}
use ot_tcp_listener.Prelude.Int.{ℤ, pos, negsuc}
use ot_tcp_listener.NetworkTools.Sockets.{
  o_nonblock, clear_nonblock, set_nonblock, get_flags, FileFlags, set_socket_blocking_enabled,
  PortSystem, is_port_open,
}

-- Whether the bit O_NONBLOCK is set, and the flags without it.
abbrev pub nonblock_bit : ℕ → ℕ
nonblock_bit flags = flags / o_nonblock % 2

abbrev pub other_bits : ℕ → ℕ
other_bits flags = flags - nonblock_bit flags * o_nonblock

abbrev pub is_descriptor : ℤ → Bool
is_descriptor (pos fd) = true
is_descriptor (negsuc fd) = false

abbrev pub has_flags : Option ℕ → Bool
has_flags none = false
has_flags (some flags) = true

-- The flags before and after a call: with `done` the bit is as asked for and the others are as they
-- were, and otherwise nothing has changed.
abbrev pub FlagsAfter : Bool → Bool → Option ℕ → Option ℕ → Type 0
FlagsAfter true blocking (some flags) (some flags') =
    (nonblock_bit flags' ≡ (if blocking then 0 else 1)) × (other_bits flags' ≡ other_bits flags)
FlagsAfter false blocking o o' = o' ≡ o
FlagsAfter _ blocking o o' = ⊥

-- The arithmetic of the two masks.
masks :
    (blocking : Bool) (flags : ℕ)
    → FlagsAfter true blocking
        (some flags)
        (some (if blocking then clear_nonblock flags else set_nonblock flags))
masks true flags = omega arith
masks false flags = omega arith

get_flags-FlagsAfter :
    (blocking : Bool) (o : Option ℕ) (s : FileFlags)
    → s.flags ≡ o
    → let (result, s') = get_flags blocking o s in
      (result ≡ (has_flags o && not s.settable))
      × FlagsAfter (has_flags o && s.settable) blocking o s'.flags
get_flags-FlagsAfter blocking none s e = (refl, e)
get_flags-FlagsAfter blocking (some flags) s e = elim (Bool-cases s.settable) [
  | inl y ↦ rw y (refl, masks blocking flags)
  | inr n ↦ rw n (refl, e)
]

-- The result of SetSocketBlockingEnabled is true only where the flags are read and cannot be set;
-- where they are set the bit O_NONBLOCK is as asked for and the other flags as before, and
-- otherwise no flag changes.
pub set_socket_blocking_enabled-FlagsAfter :
    (fd : ℤ) (blocking : Bool) (s : FileFlags)
    → let (result, s') = set_socket_blocking_enabled fd blocking s in
      let readable = is_descriptor fd && has_flags s.flags in
      (result ≡ (readable && not s.settable))
      × FlagsAfter (readable && s.settable) blocking s.flags s'.flags
unfolding set_socket_blocking_enabled
set_socket_blocking_enabled-FlagsAfter (pos fd) blocking s =
    get_flags-FlagsAfter blocking s.flags s refl
set_socket_blocking_enabled-FlagsAfter (negsuc fd) blocking s = (refl, refl)

-- isPortOpen closes its socket once, but for a connection that is made at once: that socket stays
-- open, and the port is told to be closed.
pub is_port_open_closes :
    (s : PortSystem)
    → let r = is_port_open s in
      (r.open_port ≡ (not s.connected && s.writable)) × (r.closes ≡ (if s.connected then 0 else 1))
unfolding is_port_open
is_port_open_closes s = ground arith
