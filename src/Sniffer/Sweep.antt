-- ===== src/Sniffer/Sweep.antt =====
-- Which addresses a Sniffer lists, and which of them arpLoop asks for.
use ot_tcp_listener.Prelude.{
  ℕ, zero, suc, ◌+◌, ◌-◌, ◌≤◌, ◌<◌, List, [], ◌∷◌, Option, some, ◌≡◌, refl, ap, Text, codes, arith,
  length,
}
use ot_tcp_listener.Prelude.Outcome.{ok, ◌>>=◌}
use ot_tcp_listener.Net.{Ip, inet_ntoa}
use ot_tcp_listener.Net.CString.{c_string, c_string-nonzero}
use ot_tcp_listener.Net.Ntoa.{inet_ntoa-NonZero, length-inet_ntoa}
use ot_tcp_listener.Arp.{Arguments, System, Call, send_arp_packet}
use ot_tcp_listener.Arp.Counts.{Effect, blocks_made}
use ot_tcp_listener.Arp.Leaks.{send_arp_packet-Effect, Effect-fits, first_fault-none}
use ot_tcp_listener.NetworkTools.Validate.{IsOctets, validate_ip-inet_ntoa}
use ot_tcp_listener.NetworkTools.Address.{mask24, mask24_laws}
use ot_tcp_listener.NetworkTools.Convert.{octets}
use ot_tcp_listener.Sniffer.Segment.{to_number, segment_loop, segment_ip_list, sweep, arguments_for}

-- The addresses that share the first three octets of `x`, `n` of them from `i` on.
abbrev pub hosts : Ip → ℕ → ℕ → List Text
hosts x zero i = []
hosts x (suc n) i = inet_ntoa (record x { d = i }) ∷ hosts x n (i + 1)

octets-to_number : (x : Ip) → IsOctets x → octets (to_number x) ≡ x
octets-to_number x h = ground arith

segment_loop-hosts :
    (n i : ℕ) (x : Ip)
    → IsOctets x
    → i + n ≤ 256
    → segment_loop n (to_number (record x { d = i })) ≡ hosts x n i
unfolding segment_loop
segment_loop-hosts zero i x h fits = refl
segment_loop-hosts (suc n) i x (a, b, c, d) fits =
    let next : to_number (record x { d = i }) + 1 ≡ to_number (record x { d = i + 1 }) =
      omega arith in
    rw (
      octets-to_number (record x { d = i }) (a, b, c, omega arith),
      next,
      segment_loop-hosts n (i + 1) x (a, b, c, d) (omega arith),
    )

-- Where inet_pton knows the address of the interface, four octets, and the mask 255.255.255.0, a
-- Sniffer lists the 256 addresses that share the first three octets of its interface, in their
-- order.
pub segment_ip_list-hosts :
    (inet_pton : Text → Option Ip) (iface_ip : Text) (x : Ip)
    → IsOctets x
    → inet_pton iface_ip ≡ some x
    → inet_pton (codes "255.255.255.0") ≡ some mask24
    → segment_ip_list inet_pton iface_ip ≡ ok (hosts x 256 0)
unfolding segment_ip_list
segment_ip_list-hosts inet_pton iface_ip x (a, b, c, d) e e' =
    let masks = mask24_laws x a b c d in
    let rounds : to_number (record x { d = 255 }) + 1 - to_number (record x { d = 0 }) ≡ 256 =
      omega arith in
    rw (e, e', masks.0, masks.1, rounds)
      (ap ok (segment_loop-hosts 256 0 x (a, b, c, d) (omega arith)))

-- The traces are those of a call of sendArpPacket for each address, none of which overruns.
module _ (iface_ip iface : Text) (network : Arguments → System) where
  abbrev pub AsksEach : List Text → List (List Call) → Type 0
  AsksEach [] [] = Unit
  AsksEach [] (calls ∷ more) = ⊥
  AsksEach (ip ∷ ips) [] = ⊥
  AsksEach (ip ∷ ips) (calls ∷ more) =
      let r = arguments_for iface_ip iface ip in Effect r (network r) (ok calls) × AsksEach ips more

  module _ (made : (r : Arguments) → blocks_made (network r).blocks ≡ 6)
      (short_ip : length (c_string iface_ip) < 16) (short_name : length (c_string iface) < 40) where
    abbrev to_host : Ip → Arguments
    to_host x = arguments_for iface_ip iface (inet_ntoa x)

    send-host :
        (x : Ip)
        → IsOctets x
        → (calls : List Call) × (send_arp_packet (to_host x) (network (to_host x)) ≡ ok calls)
          × Effect (to_host x) (network (to_host x)) (ok calls)
    send-host x (a, b, c, d) =
        let same = c_string-nonzero (inet_ntoa x) (inet_ntoa-NonZero x) in
        let short = length-inet_ntoa x a b c d in
        Effect-fits (send_arp_packet-Effect (to_host x) (network (to_host x))) (
          rw same (
            first_fault-none (record (to_host x) { targ_ip_addr = inet_ntoa x })
              (network (record (to_host x) { targ_ip_addr = inet_ntoa x })) (made _) short_name
              short_ip (omega (arith, short))))

    pub sweep-hosts :
        (x : Ip) (n i : ℕ)
        → IsOctets x
        → 0 < x.a + x.b + x.c
        → i + n ≤ 256
        → (traces : List (List Call)) × (sweep iface_ip iface network (hosts x n i) ≡ ok traces)
          × AsksEach (hosts x n i) traces
    unfolding sweep
    sweep-hosts x zero i h pos fits = ([], refl, tt)
    sweep-hosts x (suc n) i (a, b, c, d) pos fits =
        let host = record x { d = i } in
        let (calls, sent, effect) = send-host host (a, b, c, omega arith) in
        let (traces, rest, each) = sweep-hosts x n (i + 1) (a, b, c, d) pos (omega arith) in
        (
          calls ∷ traces,
          rw (validate_ip-inet_ntoa host (a, b, c, omega arith) (omega arith), sent, rest),
          (effect, each),
        )

    -- Where inet_pton knows the address of the interface, four octets, and the mask 255.255.255.0,
    -- the text of that address has fewer than 16 characters and the name of the interface fewer
    -- than 40: on a segment other than 0.0.0.0/24 a pass of arpLoop calls sendArpPacket for every
    -- address of the list, in order, the first and the last of the segment too, and no call writes
    -- past a block; each has the effect that its system calls allow.
    pub sweep-segment :
        (inet_pton : Text → Option Ip) (x : Ip)
        → IsOctets x
        → 0 < x.a + x.b + x.c
        → inet_pton iface_ip ≡ some x
        → inet_pton (codes "255.255.255.0") ≡ some mask24
        → (traces : List (List Call)) × ((segment_ip_list inet_pton iface_ip
              >>= sweep iface_ip iface network)
            ≡ ok traces)
          × AsksEach (hosts x 256 0) traces
    sweep-segment inet_pton x h pos e e' =
        let (traces, sent, each) = sweep-hosts x 256 0 h pos (omega arith) in
        (traces, rw (segment_ip_list-hosts inet_pton iface_ip x h e e') sent, each)
