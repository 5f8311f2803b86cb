-- ===== src/Arp/Leaks.antt =====
-- What Arp::sendArpPacket leaves behind: memory, descriptors, complaints, and the frame that it sent.
use ot_tcp_listener.Prelude.{
  ℕ, ◌+◌, ◌<◌, codes, Bool, true, false, not, List, [], ◌∷◌, Option, none, some, ◌≡◌, Bytes, arith,
  if◌then◌else◌, ◌++◌, drop, length-replicate, leb, length, Text, refl, ◌∙◌, replicate,
}
use ot_tcp_listener.Arp.{
  resolve, get_addrinfo, free_addrinfo, transmit, perror, ip_maxpacket, System, Arguments, Call,
  name_size, inet_addrstrlen, strcpy_new, open_socket, close_socket, complain, Blocks, block_of,
  allocations_of, send_arp_packet,
}
use ot_tcp_listener.Net.{Ip, Mac}
use ot_tcp_listener.Net.CString.{write_string}
use ot_tcp_listener.Prelude.Outcome.{Fault, Outcome, ok, fault, out_of_bounds, null_pointer}
use ot_tcp_listener.Prelude.Int.{pos}
use ot_tcp_listener.Arp.Header.{request_frame}
use ot_tcp_listener.Arp.Memory.{allocate_with, allocate_ustrmem}
use ot_tcp_listener.Arp.Counts.{
  allocations, frees, opened, closed, frames_sent, complaints, succeeds, left_open, expected_frames,
  blocks_made, first_fault, Effect, faulted, traced,
}

block_of_lem :
    (malloc : Bool) (size : ℕ)
    → 0 < size
    → (b : Bytes) × (block_of (allocate_ustrmem malloc (pos size))
        ≡ (if malloc then ok b else fault null_pointer))
unfolding block_of allocate_with
block_of_lem true size h = (replicate size 0, ground arith)
block_of_lem false size h = ([], ground arith)

strcpy_new_lem :
    (malloc : Bool) (size : ℕ) (text : Text)
    → 0 < size
    → (b : Bytes) × (strcpy_new malloc size text ≡ (
        if not malloc
        then fault null_pointer
        else if leb size (length text)
        then fault out_of_bounds
        else ok b))
unfolding strcpy_new block_of allocate_with write_string
strcpy_new_lem false size text h = ([], ground arith)
strcpy_new_lem true size text h = (
  text ++ 0 ∷ drop (length text + 1) (replicate size 0),
  ground (arith, length-replicate {A = ℕ} size 0),
)

-- The trace of a run with no fault.
abbrev through_target : System → Mac → ℕ → Option Ip → Option Ip → List Call
through_target s mac index none target =
    complain (codes "inet_pton() failed for source IP address.\nError message: " ++ s.error_text)
    ∷ []
through_target s mac index (some src) none =
    complain (codes "getaddrinfo() failed: " ++ (s.error_text ++ codes "\n")) ∷ []
through_target s mac index (some src) (some target) =
    get_addrinfo ∷ free_addrinfo ∷ transmit s s.raw_socket index (request_frame mac src target)

abbrev through_interface : System → Mac → Option ℕ → List Call
through_interface s mac none =
    perror (codes "if_nametoindex() failed to obtain interface index ") s.error_text ∷ []
through_interface s mac (some index) = through_target s mac index s.source s.target

abbrev through_mac : System → Option Mac → List Call
through_mac s none = perror (codes "ioctl() failed to get source MAC address ") s.error_text ∷ []
through_mac s (some mac) = close_socket ∷ through_interface s mac s.interface_index

abbrev through_socket : System → Bool → List Call
through_socket s false =
    perror (codes "socket() failed to get socket descriptor for using ioctl() ") s.error_text ∷ []
through_socket s true = open_socket ∷ through_mac s s.hardware_address

abbrev trace : System → List Call
trace s = allocations_of s.blocks ++ through_socket s s.lookup_socket

abbrev outcome_of : Option Fault → List Call → Outcome (List Call)
outcome_of none calls = ok calls
outcome_of (some e) calls = fault e

send_arp_packet-trace :
    (r : Arguments) (s : System) → send_arp_packet r s ≡ outcome_of (first_fault r s) (trace s)
unfolding send_arp_packet resolve
send_arp_packet-trace r s =
    let interface = (strcpy_new_lem s.blocks.interface name_size r.eth_device (omega arith)).1 in
    let src_mac = (block_of_lem s.blocks.src_mac 6 (omega arith)).1 in
    let dst_mac = (block_of_lem s.blocks.dst_mac 6 (omega arith)).1 in
    let src_ip = (strcpy_new_lem s.blocks.src_ip inet_addrstrlen r.src_ip_addr (omega arith)).1 in
    let target = (strcpy_new_lem s.blocks.target name_size r.targ_ip_addr (omega arith)).1 in
    let frame = (block_of_lem s.blocks.ether_frame ip_maxpacket (omega arith)).1 in
    ground (arith, interface, src_mac, dst_mac, src_ip, target, frame)

-- What the first six calls add to the counts.
allocations_of_lem :
    (m : Blocks) (t : List Call)
    → (allocations (allocations_of m ++ t) ≡ blocks_made m + allocations t)
      × (frees (allocations_of m ++ t) ≡ frees t)
      × (opened (allocations_of m ++ t) ≡ opened t)
      × (closed (allocations_of m ++ t) ≡ closed t)
      × (length (complaints (allocations_of m ++ t)) + blocks_made m ≡ 6 + length (complaints t))
      × (frames_sent (allocations_of m ++ t) ≡ frames_sent t)
unfolding allocations_of allocate_with
allocations_of_lem m t = ground arith

-- Where there is no fault, a run that succeeds has all six blocks.
all_blocks :
    (r : Arguments) (s : System)
    → first_fault r s ≡ none
    → succeeds s ≡ true
    → blocks_made s.blocks ≡ 6
all_blocks r s h k = ground arith

through_socket_lem :
    (s : System)
    → let t = through_socket s s.lookup_socket in
      (allocations t ≡ 0)
      × (frees t ≡ (if succeeds s then 6 else 0))
      × (opened t ≡ closed t + left_open s)
      × (length (complaints t) ≡ (if succeeds s then 0 else 1))
      × (frames_sent t ≡ expected_frames s s.hardware_address s.interface_index s.source s.target)
unfolding transmit
through_socket_lem s = ground arith

outcome_of-Effect :
    (r : Arguments) (s : System) (o : Option Fault)
    → first_fault r s ≡ o
    → Effect r s (outcome_of o (trace s))
outcome_of-Effect r s (some e) h = faulted h
outcome_of-Effect r s none h =
    let t = through_socket s s.lookup_socket in
    let (a, f, o, c, e, x) = allocations_of_lem s.blocks t in
    let (a', f', d', e', x') = through_socket_lem s in
    let made = all_blocks r s h in
    traced (trace s) h (ground (arith, a, a')) (ground (arith, f, f', made))
      (ground (arith, o, c, d')) (ground (arith, e, e')) (x ∙ x')

-- Of all arguments, whichever of its six allocations fail, and all results of the system calls:
-- sendArpPacket follows a null pointer, or writes past a block of 40, 16 or 40 bytes, at the first
-- block that is not there or too short for its text when it is used, if no call before that has
-- failed. Otherwise it complains once for each block that it did not get, and once more if a
-- system call fails; it frees all blocks if every call succeeds and none otherwise; it closes
-- every descriptor that it opens, but for the first one if ioctl fails on it and the second if
-- sendto does; and it sends one frame if every call succeeds and none otherwise: the request made
-- of the addresses that the calls gave, through the interface that they named.
pub send_arp_packet-Effect : (r : Arguments) (s : System) → Effect r s (send_arp_packet r s)
send_arp_packet-Effect r s =
    rw (send_arp_packet-trace r s) (outcome_of-Effect r s (first_fault r s) refl)

-- Where there is no fault, there is a trace.
pub Effect-fits :
    {r : Arguments} {s : System} {o : Outcome (List Call)}
    → Effect r s o
    → first_fault r s ≡ none
    → (calls : List Call) × (o ≡ ok calls) × Effect r s (ok calls)
Effect-fits (faulted e) fits = absurd (ground (arith, e, fits))
Effect-fits (traced calls e a f d c t) fits = (calls, refl, traced calls e a f d c t)

-- With all six blocks there and every text short enough, there is no fault.
pub first_fault-none :
    (r : Arguments) (s : System)
    → blocks_made s.blocks ≡ 6
    → length r.eth_device < name_size
    → length r.src_ip_addr < inet_addrstrlen
    → length r.targ_ip_addr < name_size
    → first_fault r s ≡ none
first_fault-none r s h a b c = ground arith
