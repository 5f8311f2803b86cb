-- ===== src/NetworkTools/Sockets.antt =====
-- SetSocketBlockingEnabled, getHostName and getIpMask of networktools.h, and isPortOpen of its branch
-- for Windows. What the system's calls give is an argument.
pub mod Blocking
use ot_tcp_listener.Prelude.{
  ℕ, ◌+◌, ◌-◌, ◌*◌, ◌/◌, ◌%◌, Bool, true, false, not, ◌&&◌, List, [], ◌∷◌, ◌++◌, Option, none, some,
  Bytes, Text, codes, ◌==◌, if◌then◌else◌,
}
use ot_tcp_listener.Prelude.Int.{ℤ, pos, negsuc}
use ot_tcp_listener.Prelude.Outcome.{Outcome, ok, ◌>>=◌, copy}

-- O_NONBLOCK of Linux
abbrev pub o_nonblock : ℕ
o_nonblock = 2048

-- `flags & ~O_NONBLOCK` and `flags | O_NONBLOCK` of flags that are not negative
abbrev pub clear_nonblock : ℕ → ℕ
clear_nonblock flags = flags / (o_nonblock * 2) * (o_nonblock * 2) + flags % o_nonblock

abbrev pub set_nonblock : ℕ → ℕ
set_nonblock flags = clear_nonblock flags + o_nonblock

-- A socket as fcntl sees it: its flags, or none where F_GETFL fails, and whether F_SETFL succeeds.
pub record FileFlags : Type 0 where
  pub flags : Option ℕ
  pub settable : Bool

-- From the second call of fcntl on: the result, and the flags afterwards.
abbrev pub set_flags : Bool → ℕ → FileFlags → Bool × FileFlags
set_flags blocking flags s =
    let flags' = if blocking then clear_nonblock flags else set_nonblock flags in
    if s.settable then (false, record s { flags = some flags' }) else (true, s)

-- From the first call of fcntl on.
abbrev pub get_flags : Bool → Option ℕ → FileFlags → Bool × FileFlags
get_flags blocking none s = (false, s)
get_flags blocking (some flags) s = set_flags blocking flags s

unfoldable pub set_socket_blocking_enabled : ℤ → Bool → FileFlags → Bool × FileFlags
set_socket_blocking_enabled (negsuc fd) blocking s = (false, s)
set_socket_blocking_enabled (pos fd) blocking s = get_flags blocking s.flags s

-- The branch for Windows: whether ioctlsocket gives 0.
unfoldable pub set_socket_blocking_windows : ℤ → Bool → Bool
set_socket_blocking_windows (negsuc fd) succeeds = false
set_socket_blocking_windows (pos fd) succeeds = not succeeds

-- What the calls of isPortOpen give, in their order.
pub record PortSystem : Type 0 where
  pub sock : ℤ
  pub made_nonblocking : Bool
  -- connect gives 0
  pub connected : Bool
  pub made_blocking : Bool
  -- FD_ISSET of the socket after select
  pub writable : Bool

-- What isPortOpen returns, what it prints, and how often it closes its socket.
pub record PortResult : Type 0 where
  pub open_port : Bool
  pub printed : List Text
  pub closes : ℕ

abbrev pub complaint : Bool → Text → List Text
complaint fails message = if fails then message ∷ [] else []

unfoldable pub is_port_open : PortSystem → PortResult
is_port_open s =
    let failed =
      complaint (set_socket_blocking_windows s.sock s.made_nonblocking)
        (codes "ioctlsocket failed set the socket in non-blocking\n") in
    let failed' =
      complaint (set_socket_blocking_windows s.sock s.made_blocking)
        (codes "ioctlsocket failed restart the socket mode\n") in
    if s.connected
    then record { open_port = false; printed = failed; closes = 0 }
    else record { open_port = s.writable; printed = failed ++ failed'; closes = 1 }

-- getHostName: inet_addr, and getnameinfo of an address, are parameters; the null QString is the
-- empty text.
unfoldable pub get_host_name : (Text → ℕ) → (ℕ → Option Text) → Text → Text
get_host_name inet_addr getnameinfo ip = elim (getnameinfo (inet_addr ip)) [
  | none ↦ []
  | some hbuf ↦ hbuf
]

-- getIpMask: whether `socket` succeeds, what ioctl gives for the netmask, the text of an error, and
-- the storage that the name's pointer points into. The mask, or 0, the number of descriptors that
-- stay open, and what perror complains of.
unfoldable pub get_ip_mask : Bool → Option ℕ → Text → Bytes → Outcome (ℕ × ℕ × List Text)
get_ip_mask socket netmask error iface =
    let told = λ (message : Text). message ++ (codes ": " ++ (error ++ codes "\n")) in
    let mask = do
      name ← copy 16 0 iface
      ok (elim netmask [
        | none ↦ (0, 1, told (codes "ioctl(SIOCGIFADDR)") ∷ [])
        | some m ↦ (m, 0, [])
      ])
    in if socket then mask else ok (0, 0, told (codes "socket") ∷ [])
