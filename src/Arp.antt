-- ===== src/Arp.antt =====
-- arp.h: the class Arp, which sends an ARP request as a raw Ethernet frame. The system calls are not
-- part of the repository: what they return is an argument, and what the function does to
-- descriptors and memory, and what it complains of, is the trace of its calls.
pub mod Header
pub mod Memory
pub mod Counts
pub mod Leaks
pub mod Request
pub mod Sample
mod Examples
use ot_tcp_listener.Prelude.{
  ℕ, Bool, true, false, List, [], ◌∷◌, ◌++◌, Option, none, some, Bytes, Text, codes,
}
use ot_tcp_listener.Prelude.Int.{pos}
use ot_tcp_listener.Prelude.Outcome.{Outcome, ok, null_pointer, or_fault, ◌>>=◌}
use ot_tcp_listener.Net.{Ip, Mac}
use ot_tcp_listener.Net.CString.{write_string}
use Header.{request_frame}
use Memory.{allocate_strmem, allocate_ustrmem}

-- The size of the blocks for the name of the interface and for the target.
abbrev pub name_size : ℕ
name_size = 40

-- INET_ADDRSTRLEN of <netinet/in.h>
abbrev pub inet_addrstrlen : ℕ
inet_addrstrlen = 16

-- The arguments of sendArpPacket, as C strings.
pub record Arguments : Type 0 where
  pub src_ip_addr : Text
  pub targ_ip_addr : Text
  pub eth_device : Text

-- IP_MAXPACKET of <netinet/ip.h>
abbrev pub ip_maxpacket : ℕ
ip_maxpacket = 65535

-- For which of the six blocks malloc succeeds, in the order of the calls.
pub record Blocks : Type 0 where
  pub src_mac : Bool
  pub dst_mac : Bool
  pub ether_frame : Bool
  pub interface : Bool
  pub target : Bool
  pub src_ip : Bool

-- What the system calls give, in the order in which they are made; `none` is a failure.
pub record System : Type 0 where
  pub blocks : Blocks
  -- socket (AF_INET, SOCK_RAW, IPPROTO_RAW)
  pub lookup_socket : Bool
  -- ioctl (sd, SIOCGIFHWADDR, &ifr)
  pub hardware_address : Option Mac
  -- if_nametoindex
  pub interface_index : Option ℕ
  -- inet_pton of the source address
  pub source : Option Ip
  -- getaddrinfo of the target
  pub target : Option Ip
  -- socket (PF_PACKET, SOCK_RAW, htons (ETH_P_ALL))
  pub raw_socket : Bool
  -- sendto
  pub sent : Bool
  -- the text of the error that perror, strerror or gai_strerror gives
  pub error_text : Text

-- The calls with an effect outside the function, where they succeed, and what goes to the standard
-- error.
pub data Call : Type 0 where
  allocate : Call
  free : Call
  open_socket : Call
  close_socket : Call
  get_addrinfo : Call
  free_addrinfo : Call
  -- the interface's index and the frame
  send_to : ℕ → Bytes → Call
  complain : Text → Call

-- A call of allocate_strmem or allocate_ustrmem, by its results.
abbrev pub allocated : Option Bytes × Text → Call
allocated (none, message) = complain message
allocated (some block, message) = allocate

-- The six calls.
unfoldable pub allocations_of : Blocks → List Call
allocations_of m =
    allocated (allocate_ustrmem m.src_mac (pos 6))
    ∷ allocated (allocate_ustrmem m.dst_mac (pos 6))
    ∷ allocated (allocate_ustrmem m.ether_frame (pos ip_maxpacket))
    ∷ allocated (allocate_strmem m.interface (pos name_size))
    ∷ allocated (allocate_strmem m.target (pos name_size))
    ∷ allocated (allocate_strmem m.src_ip (pos inet_addrstrlen))
    ∷ []

-- The block behind a pointer that is followed.
unfoldable pub block_of : Option Bytes × Text → Outcome Bytes
block_of made = or_fault null_pointer made.0

-- strcpy of a C string into a block of `size` zeros.
unfoldable pub strcpy_new : Bool → ℕ → Text → Outcome Bytes
strcpy_new malloc size text = do
  block ← block_of (allocate_strmem malloc (pos size))
  write_string block text

-- perror
abbrev pub perror : Text → Text → Call
perror message error = complain (message ++ (codes ": " ++ (error ++ codes "\n")))

abbrev six_times : Call → List Call
six_times c = c ∷ c ∷ c ∷ c ∷ c ∷ c ∷ []

-- From the call of sendto on.
finish_arp : System → Bool → ℕ → Bytes → List Call
finish_arp s true index frame = send_to index frame ∷ close_socket ∷ six_times free
finish_arp s false index frame = perror (codes "sendto() failed") s.error_text ∷ []

-- From the second call of socket on.
unfoldable pub transmit : System → Bool → ℕ → Bytes → List Call
unfolding finish_arp
transmit s false index frame = perror (codes "socket() failed ") s.error_text ∷ []
transmit s true index frame = open_socket ∷ finish_arp s s.sent index frame

-- From the call of inet_pton on; the frame is written into its block between the calls.
unfoldable pub resolve : System → Mac → ℕ → Option Ip → Option Ip → Outcome (List Call)
unfolding transmit
resolve s mac index none target = ok (
    complain (codes "inet_pton() failed for source IP address.\nError message: " ++ s.error_text)
    ∷ [])
resolve s mac index (some src) none =
    ok (complain (codes "getaddrinfo() failed: " ++ (s.error_text ++ codes "\n")) ∷ [])
resolve s mac index (some src) (some target) = do
  ether_frame ← block_of (allocate_ustrmem s.blocks.ether_frame (pos ip_maxpacket))
  ok (get_addrinfo ∷ free_addrinfo ∷ transmit s s.raw_socket index (request_frame mac src target))

-- From the call of if_nametoindex on.
find_interface : Arguments → System → Mac → Option ℕ → Outcome (List Call)
unfolding resolve
find_interface r s mac none =
    ok (perror (codes "if_nametoindex() failed to obtain interface index ") s.error_text ∷ [])
find_interface r s mac (some index) = do
  dst_mac ← block_of (allocate_ustrmem s.blocks.dst_mac (pos 6))
  src_ip ← strcpy_new s.blocks.src_ip inet_addrstrlen r.src_ip_addr
  target ← strcpy_new s.blocks.target name_size r.targ_ip_addr
  resolve s mac index s.source s.target

-- From the call of ioctl on; the descriptor stays open where the call fails.
find_mac : Arguments → System → Option Mac → Outcome (List Call)
unfolding find_interface
find_mac r s none =
    ok (perror (codes "ioctl() failed to get source MAC address ") s.error_text ∷ [])
find_mac r s (some mac) = do
  src_mac ← block_of (allocate_ustrmem s.blocks.src_mac (pos 6))
  calls ← find_interface r s mac s.interface_index
  ok (close_socket ∷ calls)

lookup_interface : Arguments → System → Bool → Outcome (List Call)
unfolding find_mac
lookup_interface r s false =
    ok (
      perror (codes "socket() failed to get socket descriptor for using ioctl() ") s.error_text
      ∷ [])
lookup_interface r s true = do calls ← find_mac r s s.hardware_address; ok (open_socket ∷ calls)

-- The trace of sendArpPacket; a fault is a null pointer that is followed, or a strcpy past the end of
-- its block.
unfoldable pub send_arp_packet : Arguments → System → Outcome (List Call)
unfolding lookup_interface
send_arp_packet r s = do
  interface ← strcpy_new s.blocks.interface name_size r.eth_device
  calls ← lookup_interface r s s.lookup_socket
  ok (allocations_of s.blocks ++ calls)
