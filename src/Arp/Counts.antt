-- ===== src/Arp/Counts.antt =====
-- What there is to count in a trace of Arp::sendArpPacket, and what the counts come to.
use ot_tcp_listener.Prelude.{
  ℕ, ◌+◌, Bool, true, false, ◌&&◌, not, List, [], ◌∷◌, Option, none, some, ◌≡◌, Bytes,
  if◌then◌else◌, leb, length, Text,
}
use ot_tcp_listener.Arp.{
  System, Arguments, Call, name_size, inet_addrstrlen, allocate, free, open_socket, close_socket,
  send_to, complain, Blocks,
}
use ot_tcp_listener.Net.{Ip, Mac}
use ot_tcp_listener.Prelude.Outcome.{Fault, Outcome, ok, fault, out_of_bounds, null_pointer}
use ot_tcp_listener.Arp.Header.{request_frame}

abbrev pub allocations : List Call → ℕ
allocations [] = 0
allocations (allocate ∷ t) = 1 + allocations t
allocations (_ ∷ t) = allocations t

abbrev pub frees : List Call → ℕ
frees [] = 0
frees (free ∷ t) = 1 + frees t
frees (_ ∷ t) = frees t

abbrev pub opened : List Call → ℕ
opened [] = 0
opened (open_socket ∷ t) = 1 + opened t
opened (_ ∷ t) = opened t

abbrev pub closed : List Call → ℕ
closed [] = 0
closed (close_socket ∷ t) = 1 + closed t
closed (_ ∷ t) = closed t

abbrev pub frames_sent : List Call → List (ℕ × Bytes)
frames_sent [] = []
frames_sent (send_to i f ∷ t) = (i, f) ∷ frames_sent t
frames_sent (_ ∷ t) = frames_sent t

-- What goes to the standard error.
abbrev pub complaints : List Call → List Text
complaints [] = []
complaints (complain text ∷ t) = text ∷ complaints t
complaints (_ ∷ t) = complaints t

abbrev pub is_some {ℓ} : {A : Type ℓ} → Option A → Bool
is_some none = false
is_some (some a) = true

-- Whether the calls up to the second socket all succeed.
abbrev pub is_ready : System → Bool
is_ready s =
    s.lookup_socket
    && (is_some s.hardware_address
        && (is_some s.interface_index && (is_some s.source && is_some s.target)))

abbrev pub succeeds : System → Bool
succeeds s = is_ready s && (s.raw_socket && s.sent)

-- The descriptors that stay open: the first, if ioctl fails on it, or the second, if sendto does.
abbrev pub left_open : System → ℕ
left_open s =
    if s.lookup_socket && not (is_some s.hardware_address)
    then 1
    else if is_ready s && (s.raw_socket && not s.sent)
    then 1
    else 0

-- The frame that the results of the calls make.
abbrev pub expected_frames :
    System → Option Mac → Option ℕ → Option Ip → Option Ip → List (ℕ × Bytes)
expected_frames s (some mac) (some index) (some src) (some target) =
    if succeeds s then (index, request_frame mac src target) ∷ [] else []
expected_frames s _ _ _ _ = []

-- How many of the six blocks there are, and what is complained of each of the others.
abbrev pub count : Bool → ℕ
count b = if b then 1 else 0

abbrev pub blocks_made : Blocks → ℕ
blocks_made m =
    count m.src_mac
    + count m.dst_mac
    + count m.ether_frame
    + count m.interface
    + count m.target
    + count m.src_ip

-- The fault, if there is one: what the first pointer that is followed to a block that is not there,
-- or the first text that is too long for its block, comes to, up to the first call that fails.
abbrev pub first_fault : Arguments → System → Option Fault
first_fault r s =
    let m = s.blocks in
    if not m.interface
    then some null_pointer
    else if leb name_size (length r.eth_device)
    then some out_of_bounds
    else if not (s.lookup_socket && is_some s.hardware_address)
    then none
    else if not m.src_mac
    then some null_pointer
    else if not (is_some s.interface_index)
    then none
    else if not (m.dst_mac && m.src_ip)
    then some null_pointer
    else if leb inet_addrstrlen (length r.src_ip_addr)
    then some out_of_bounds
    else if not m.target
    then some null_pointer
    else if leb name_size (length r.targ_ip_addr)
    then some out_of_bounds
    else if is_some s.source && (is_some s.target && not m.ether_frame)
    then some null_pointer
    else none

-- What sendArpPacket leaves behind: memory, descriptors, complaints and frames, by its trace.
pub data Effect (r : Arguments) (s : System) : Outcome (List Call) → Type 0 where
  faulted : {e : Fault} → first_fault r s ≡ some e → Effect r s (fault e)
  traced :
      (calls : List Call)
      → first_fault r s ≡ none
      → allocations calls ≡ blocks_made s.blocks
      → frees calls ≡ (if succeeds s then blocks_made s.blocks else 0)
      → opened calls ≡ closed calls + left_open s
      → length (complaints calls) + blocks_made s.blocks ≡ (if succeeds s then 6 else 7)
      → frames_sent calls ≡ expected_frames s s.hardware_address s.interface_index s.source s.target
      → Effect r s (ok calls)
