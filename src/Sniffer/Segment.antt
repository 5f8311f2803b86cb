-- ===== src/Sniffer/Segment.antt =====
-- The address list that the constructor of Sniffer builds, and Sniffer::arpLoop, which goes over it.
use ot_tcp_listener.Prelude.{
  ℕ, zero, suc, ◌+◌, ◌-◌, ◌*◌, Bool, List, [], ◌∷◌, Option, Text, codes, if◌then◌else◌,
}
use ot_tcp_listener.Prelude.Outcome.{Outcome, ok, dangling, or_fault, ◌>>=◌}
use ot_tcp_listener.Net.{Ip, inet_ntoa}
use ot_tcp_listener.Net.CString.{c_string}
use ot_tcp_listener.Arp.{Arguments, System, Call, send_arp_packet}
use ot_tcp_listener.NetworkTools.{validate_ip}
use ot_tcp_listener.NetworkTools.Address.{and_mask, or_not_mask}
use ot_tcp_listener.NetworkTools.Convert.{octets}

-- ntohl of an address
abbrev pub to_number : Ip → ℕ
to_number x = ((x.a * 256 + x.b) * 256 + x.c) * 256 + x.d

-- `for (ip = first_ip; ip <= last_ip; ++ip)`, by the rounds that are left; `octets` undoes ntohl.
unfoldable pub segment_loop : ℕ → ℕ → List Text
segment_loop zero ip = []
segment_loop (suc n) ip = inet_ntoa (octets ip) ∷ segment_loop n (ip + 1)

-- `segmentIpList` of a new Sniffer. inet_pton is a parameter; where it fails its result was never
-- set.
unfoldable pub segment_ip_list : (Text → Option Ip) → Text → Outcome (List Text)
segment_ip_list inet_pton iface_ip = do
  ipaddress ← or_fault dangling (inet_pton iface_ip)
  subnetmask ← or_fault dangling (inet_pton (codes "255.255.255.0"))
  let first_ip = to_number (and_mask ipaddress subnetmask)
  let last_ip = to_number (or_not_mask ipaddress subnetmask)
  ok (segment_loop (last_ip + 1 - first_ip) first_ip)

-- One round of arpLoop: whether `m_stop` is set at its test, and what the system gives to a call of
-- sendArpPacket with these arguments.
pub record ArpTurn : Type 0 where
  pub stopped : Bool
  pub network : Arguments → System

-- The two texts are those of the client.
module _ (iface_ip iface : Text) where
  -- The arguments for one address, each `toStdString().c_str()`.
  abbrev pub arguments_for : Text → Arguments
  arguments_for ip = record {
    src_ip_addr = c_string iface_ip;
    targ_ip_addr = c_string ip;
    eth_device = c_string iface;
  }

  -- One pass of arpLoop over the list: the calls of each sendArpPacket that it makes.
  unfoldable pub sweep : (Arguments → System) → List Text → Outcome (List (List Call))
  sweep network [] = ok []
  sweep network (ip ∷ ips) =
      let rest = sweep network ips in
      let sent = do
        calls ← send_arp_packet (arguments_for ip) (network (arguments_for ip))
        more ← rest
        ok (calls ∷ more)
      in do valid ← validate_ip ip; if valid then sent else rest

  -- arpLoop: in each round a pass, and the line that is logged behind it.
  unfoldable pub arp_loop : List Text → List ArpTurn → Outcome (List (List (List Call) × Text))
  arp_loop ips [] = ok []
  arp_loop ips (t ∷ turns) =
      let round = do
        sent ← sweep t.network ips
        more ← arp_loop ips turns
        ok ((sent, codes "Send arp packet ...") ∷ more)
      in if t.stopped then ok [] else round
