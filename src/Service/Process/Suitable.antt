-- ===== src/Service/Process/Suitable.antt =====
-- A start that finds a suitable card, and the messages of a call.
use ot_tcp_listener.Prelude.{
  false, ◌≤◌, true, List, [], ◌∷◌, ◌++◌, Option, some, ◌≡◌, Text, codes, length,
}
use ot_tcp_listener.Prelude.Outcome.{ok}
use ot_tcp_listener.Net.{Ip, inet_ntoa}
use ot_tcp_listener.NetworkTools.Address.{and_mask}
use ot_tcp_listener.NetworkTools.Clean.{printable, change_tr_characters}
use ot_tcp_listener.NetworkTools.Device.{
  NetworkInterface, AddressEntry, taken, first_suitable, pairs,
}
use ot_tcp_listener.NetworkTools.Validate.{IsOctets}
use ot_tcp_listener.Sniffer.Setup.Ends.{all_succeed}
use ot_tcp_listener.Sniffer.Setup.Told.{started_text, filter_text}
use ot_tcp_listener.Sniffer.{Capture, Seen, monitor_pcap}
use ot_tcp_listener.Service.Client.{OtClient, new_client, content, no_device}
use ot_tcp_listener.Service.Process.{
  Calls, World, Call, starts, pauses, resumes, stops, steps, cleared_steps,
}

-- The network segment of an address with its mask.
abbrev segment : Option Ip → Option Ip → Text
segment (some address) (some mask) = inet_ntoa (and_mask address mask) ++ codes "/24"
segment _ _ = []

module _ (c : Calls) where
  -- The client data of the first suitable pair of an interface and an entry.
  abbrev pub found_client : World → OtClient → OtClient
  found_client w client =
      let info = first_suitable c.contains (pairs c.contains w.interfaces) no_device in
      record client {
        type = codes "sensor";
        iface = printable (c.to_std_string (change_tr_characters c.replace info.device));
        iface_ip = info.ip;
        iface_mac = info.mac;
        net_segment = segment (c.inet_pton info.ip) (c.inet_pton info.mask);
      }

  -- There is such a pair, inet_pton knows the texts of its address, four octets, and of its mask,
  -- and the storage of the name has 16 bytes or more.
  pub record IsSuitable (w : World) : Type 0 where
    pub interface : NetworkInterface
    pub entry : AddressEntry
    pub address : Ip
    pub mask : Ip
    pub first :
        first_suitable c.contains (pairs c.contains w.interfaces) no_device
        ≡ taken c.contains interface entry
    pub address_known : c.inet_pton entry.ip ≡ some address
    pub mask_known : c.inet_pton entry.netmask ≡ some mask
    pub octets : IsOctets address
    pub size : 16 ≤ length w.storage

  -- MonitorPcap returns on what it gets.
  abbrev pub Returns : Capture → Type 0
  Returns capture = (seen : Seen) × (monitor_pcap c.qt false capture ≡ ok seen)

  abbrev pub Suitable : Call → Type 0
  Suitable (starts w) = IsSuitable w × (all_succeed w.pcap ≡ true)
  Suitable pauses = Unit
  Suitable resumes = Unit
  Suitable stops = Unit
  Suitable (steps i capture) = Returns capture
  Suitable (cleared_steps i capture) = Returns capture

  -- The messages of a call.
  abbrev pub messages_of : Call → List Text
  messages_of (starts w) =
      let client = found_client w new_client in
      content client
      ∷ started_text c.arg client.iface
      ∷ filter_text c.arg client.iface
      ∷ c.arg (codes "New Adapter [%1] added to sensor.") (codes "ip")
      ∷ codes "Ot service started..."
      ∷ []
  messages_of pauses = codes "Ot service paused..." ∷ []
  messages_of resumes = codes "Ot service resumed..." ∷ []
  messages_of stops = codes "Ot service stopped..." ∷ []
  messages_of (steps i capture) = []
  messages_of (cleared_steps i capture) = []

  abbrev pub all_messages : List Call → List Text
  all_messages [] = []
  all_messages (call ∷ calls) = messages_of call ++ all_messages calls
