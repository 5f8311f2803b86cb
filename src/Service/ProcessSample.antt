-- ===== src/Service/ProcessSample.antt =====
-- A machine with one card, and stand-ins for the calls of Qt and the C library.
use ot_tcp_listener.Prelude.{
  [], ◌∷◌, Option, some, refl, Text, codes, if◌then◌else◌, replicate, arith,
}
use ot_tcp_listener.Net.{Ip}
use ot_tcp_listener.NetworkTools.{text_eq}
use ot_tcp_listener.NetworkTools.Address.{mask24}
use ot_tcp_listener.NetworkTools.DeviceSample.{has, lo, eth0_entry, eth0}
use ot_tcp_listener.Sniffer.Setup.{PcapSystem}
use ot_tcp_listener.Sniffer.SetupSample.{working_pcap}
use ot_tcp_listener.Qt.Sample.{sample}
use ot_tcp_listener.Service.Sample.{documented}
use ot_tcp_listener.Service.Process.{Calls, World}
use ot_tcp_listener.Service.Process.Suitable.{IsSuitable}

abbrev pub host : Ip
host = record { a = 192; b = 168; c = 1; d = 77 }

-- Stand-ins for QString::arg, which leaves the text alone, and inet_pton, which knows two texts.
abbrev pub same_text : Text → Text → Text
same_text text value = text

abbrev pub pton : Text → Option Ip
pton t = if text_eq t (codes "255.255.255.0") then some mask24 else some host

abbrev pub keep_text : Text → Text → Text → Text
keep_text text before after = text

abbrev pub same : Text → Text
same t = t

abbrev pub stand_ins : Calls
stand_ins = record {
  qt = sample;
  thread = documented;
  contains = has;
  replace = keep_text;
  to_std_string = same;
  arg = same_text;
  inet_pton = pton;
}

abbrev pub card_with : PcapSystem → World
card_with q = record { interfaces = lo ∷ eth0 ∷ []; storage = replicate 16 0; pcap = q }

abbrev pub one_card : World
one_card = card_with working_pcap

pub card_with-IsSuitable : (q : PcapSystem) → IsSuitable stand_ins (card_with q)
unfolding has
card_with-IsSuitable q = record {
  interface = eth0;
  entry = eth0_entry;
  address = host;
  mask = mask24;
  first = refl;
  address_known = refl;
  mask_known = refl;
  octets = (omega arith, omega arith, omega arith, omega arith);
  size = omega arith;
}
