-- ===== src/Sniffer/ArpLoop.antt =====
-- Sniffer::arpLoop over any number of rounds: what each of them asks for.
use ot_tcp_listener.Prelude.{
  ◌+◌, ◌<◌, List, [], ◌∷◌, Option, some, ◌≡◌, refl, inl, inr, Text, codes, All, length, arith,
  if◌then◌else◌, Bool-cases,
}
use ot_tcp_listener.Prelude.Outcome.{ok, ◌>>=◌}
use ot_tcp_listener.Net.{Ip}
use ot_tcp_listener.Net.CString.{c_string}
use ot_tcp_listener.Arp.{Arguments, System, Call}
use ot_tcp_listener.Arp.Counts.{blocks_made}
use ot_tcp_listener.NetworkTools.Validate.{IsOctets}
use ot_tcp_listener.NetworkTools.Address.{mask24}
use ot_tcp_listener.Sniffer.Segment.{segment_ip_list, ArpTurn, arp_loop}
use ot_tcp_listener.Sniffer.Sweep.{hosts, AsksEach, segment_ip_list-hosts, sweep-hosts}

-- The rounds before `m_stop` is found set, by what the system gives in them.
abbrev pub going : List ArpTurn → List (Arguments → System)
going [] = []
going (t ∷ turns) = let rest = going turns in if t.stopped then [] else t.network ∷ rest

abbrev pub HasBlocks : ArpTurn → Type 0
HasBlocks t = (r : Arguments) → blocks_made (t.network r).blocks ≡ 6

module _ (iface_ip iface : Text) where
  -- Each pass asks for each of the addresses, and is logged.
  abbrev pub AsksAll :
      List Text → List (Arguments → System) → List (List (List Call) × Text) → Type 0
  AsksAll ips [] [] = Unit
  AsksAll ips [] (p ∷ passes) = ⊥
  AsksAll ips (network ∷ more) [] = ⊥
  AsksAll ips (network ∷ more) ((traces, line) ∷ passes) =
      AsksEach iface_ip iface network ips traces
      × (line ≡ codes "Send arp packet ...")
      × AsksAll ips more passes

  module _ (short_ip : length (c_string iface_ip) < 16) (short_name : length (c_string iface) < 40)
      (x : Ip) (octets : IsOctets x) (not_zero : 0 < x.a + x.b + x.c) where
    arp_loop-hosts :
        (turns : List ArpTurn)
        → All HasBlocks turns
        → (passes : List (List (List Call) × Text)) × (arp_loop iface_ip iface (hosts x 256 0) turns
            ≡ ok passes)
          × AsksAll (hosts x 256 0) (going turns) passes
    unfolding arp_loop
    arp_loop-hosts [] h = ([], refl, tt)
    arp_loop-hosts (t ∷ turns) (made, h) = elim (Bool-cases t.stopped) [
      | inl stop ↦ ([], rw stop, rw stop tt)
      | inr go ↦
          let (traces, sent, each) =
            sweep-hosts iface_ip iface t.network made short_ip short_name x 256 0 octets not_zero
              (omega arith) in
          let (passes, rest, all) = arp_loop-hosts turns h in
          (
            (traces, codes "Send arp packet ...") ∷ passes,
            rw (go, sent, rest),
            rw go (each, refl, all),
          )
    ]

    -- Where inet_pton knows the address of the interface, four octets, and the mask 255.255.255.0,
    -- the text of that address has fewer than 16 characters, the name of the interface fewer than
    -- 40, and malloc never fails: on a segment other than 0.0.0.0/24 arpLoop makes one pass in
    -- each round until it finds m_stop set. In each pass it calls sendArpPacket for every address
    -- of the list, in order, the first and the last of the segment too, and no call follows a null
    -- pointer or writes past a block; each has the effect that its system calls allow, whatever
    -- they give, and the pass is logged.
    pub arp_loop-segment :
        (inet_pton : Text → Option Ip) (turns : List ArpTurn)
        → All HasBlocks turns
        → inet_pton iface_ip ≡ some x
        → inet_pton (codes "255.255.255.0") ≡ some mask24
        → (passes : List (List (List Call) × Text)) × ((segment_ip_list inet_pton iface_ip
              >>= λ ips. arp_loop iface_ip iface ips turns)
            ≡ ok passes)
          × AsksAll (hosts x 256 0) (going turns) passes
    arp_loop-segment inet_pton turns h e e' =
        let (passes, sent, all) = arp_loop-hosts turns h in
        (passes, rw (segment_ip_list-hosts inet_pton iface_ip x octets e e') sent, all)
