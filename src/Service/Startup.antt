-- ===== src/Service/Startup.antt =====
-- OtListener::init as a whole, with the constructors of Adapter and Sniffer that it runs.
use ot_tcp_listener.Prelude.{
  ◌+◌, ◌≤◌, Bool, true, false, List, [], ◌∷◌, ◌++◌, Option, some, ◌≡◌, refl, Bytes, Text, codes,
  length, length-append, arith,
}
use ot_tcp_listener.Prelude.Outcome.{Outcome, ok, fault, ◌>>=◌}
use ot_tcp_listener.Net.{Ip, inet_ntoa}
use ot_tcp_listener.NetworkTools.Address.{mask24, and_mask}
use ot_tcp_listener.NetworkTools.Clean.{printable, change_tr_characters}
use ot_tcp_listener.NetworkTools.Device.{
  NetworkInterface, AddressEntry, taken, first_suitable, pairs,
}
use ot_tcp_listener.Sniffer.Segment.{segment_ip_list}
use ot_tcp_listener.Sniffer.Setup.{PcapSystem, Setup, Ending, returned, exited, set_up}
use ot_tcp_listener.Sniffer.Setup.Ends.{all_succeed, complaints_of, EndsBy, set_up-EndsBy}
use ot_tcp_listener.NetworkTools.Validate.{IsOctets}
use ot_tcp_listener.Sniffer.Sweep.{hosts, segment_ip_list-hosts}
use ot_tcp_listener.Service.{QThread, SnifferThread, at_test, new_adapter, start_thread}
use ot_tcp_listener.Service.Client.{OtClient, content, no_device, init_client, init_client-first}

-- The members of a Sniffer that the program uses, but for what Setup holds.
pub record NewSniffer : Type 0 where
  pub client : OtClient
  pub segment_ip_list : List Text
  pub m_stop : Bool

-- The constructor comes to its end, or it ends the process.
pub data Birth : Type 0 where
  made : NewSniffer → Setup → Birth
  process_ended : Setup → Birth

-- The end of OtListener::init, or of the process.
pub record Running : Type 0 where
  pub client : OtClient
  pub sniffer : NewSniffer
  pub thread : SnifferThread
  pub setup : Setup

pub data Start : Type 0 where
  running : Running → Start
  never_started : Setup → Start

unfoldable pub birth_of : OtClient → List Text → Ending → Birth
birth_of client ips (returned s) =
    made (record { client = client; segment_ip_list = ips; m_stop = false }) s
birth_of client ips (exited s) = process_ended s

module _ (inet_pton : Text → Option Ip) (arg : Text → Text → Text) (q : PcapSystem) where
  -- The constructor of Sniffer; `storage` is what the pointer to the interface's name points into.
  unfoldable pub create_sniffer : OtClient → Bytes → Setup → Outcome Birth
  unfolding birth_of
  create_sniffer client storage s = do
    ips ← segment_ip_list inet_pton client.iface_ip
    ending ← set_up arg q client.iface storage s
    ok (birth_of client ips ending)

  unfoldable pub start_of : QThread → OtClient → Text → Birth → Start
  start_of t client message (made sniffer s) = running (record {
    client = client;
    sniffer = sniffer;
    thread = new_adapter t;
    setup = record s { log = s.log ++ message ∷ [] };
  })
  start_of t client message (process_ended s) = never_started s

  -- OtListener::init: the client's data are told, the Adapter makes its Sniffer and starts it, and
  -- the adapter is told.
  unfoldable pub init_listener :
      QThread
      → (Text → Text → Bool)
      → (Text → Text → Text → Text)
      → (Text → Text)
      → List NetworkInterface
      → OtClient
      → Bytes
      → Setup
      → Outcome Start
  unfolding start_of
  init_listener t contains replace to_std_string interfaces client storage s = do
    (client', messages) ← init_client contains replace to_std_string arg inet_pton interfaces client
    birth ← create_sniffer client' storage (record s { log = s.log ++ content client' ∷ [] })
    ok (start_of t client' (arg (codes "New Adapter [%1] added to sensor.") (codes "ip")) birth)

-- The constructor that comes to its end.
returns :
    (told : List Text) (s : Setup) (o : Outcome Ending)
    → EndsBy true told s o
    → (s' : Setup) × (o ≡ ok (returned s'))
      × (s'.handle ≡ true)
      × (length s'.log ≡ length s.log + 2)
      × (s'.stderr ≡ s.stderr)
      × (s'.descriptors ≡ s.descriptors)
returns told s (ok (returned s')) h = (s', refl, h.0, h.1, h.2, h.3)
returns told s (ok (exited s')) h = absurd h
returns told s (fault e) h = absurd h

-- The client of the first suitable pair.
abbrev pub client_of :
    (Text → Text) → OtClient → NetworkInterface → AddressEntry → Ip → Ip → OtClient
client_of clean client i e address mask = record client {
  type = codes "sensor";
  iface = clean i.name;
  iface_ip = e.ip;
  iface_mac = i.hardware_address;
  net_segment = inet_ntoa (and_mask address mask) ++ codes "/24";
}

-- A running sniffer with its list, whose set-up has a handle and has told four more messages.
pub record IsRunning (c : OtClient) (ips : List Text) (s : Setup) (r : Running) : Type 0 where
  pub told : r.client ≡ c
  pub created : r.sniffer ≡ record { client = c; segment_ip_list = ips; m_stop = false }
  pub started : r.thread ≡ record { m_stop = false; place = at_test; polls = 0 }
  pub has_handle : r.setup.handle ≡ true
  pub log : length r.setup.log ≡ length s.log + 4
  pub stderr : r.setup.stderr ≡ s.stderr
  pub descriptors : r.setup.descriptors ≡ s.descriptors

new_adapter_runs :
    (t : QThread) → new_adapter t ≡ record { m_stop = false; place = at_test; polls = 0 }
unfolding start_thread
new_adapter_runs t = rw t.start-ended

module _ (t : QThread) (contains : Text → Text → Bool) (replace : Text → Text → Text → Text)
    (to_std_string : Text → Text) (inet_pton : Text → Option Ip) (arg : Text → Text → Text)
    (q : PcapSystem) where
  -- Where there is a suitable pair of an interface and an entry, inet_pton knows the texts of its
  -- address, four octets, of its mask, and of 255.255.255.0, every call of libpcap and the system
  -- succeeds with a mask that is not 0, and the storage of the name has 16 bytes or more:
  -- OtListener::init fills the client with the cleaned name, the address and the hardware address
  -- of the first such pair and with its network segment, always followed by /24; its new Sniffer
  -- lists, whatever the mask of the interface is, the 256 addresses with the first three octets of
  -- the address, and has a handle, its thread runs, the log has four more messages, and there is
  -- no complaint and no descriptor left open.
  pub init_listener-IsRunning :
      (interfaces : List NetworkInterface) (client : OtClient) (storage : Bytes) (s : Setup)
      (i : NetworkInterface) (e : AddressEntry) (address mask : Ip)
      → first_suitable contains (pairs contains interfaces) no_device ≡ taken contains i e
      → inet_pton e.ip ≡ some address
      → inet_pton e.netmask ≡ some mask
      → inet_pton (codes "255.255.255.0") ≡ some mask24
      → IsOctets address
      → all_succeed q ≡ true
      → 16 ≤ length storage
      → let clean : Text → Text =
          λ name. printable (to_std_string (change_tr_characters replace name)) in
        (r : Running) × (init_listener inet_pton arg q t contains replace to_std_string interfaces
            client storage s
          ≡ ok (running r))
        × IsRunning (client_of clean client i e address mask) (hosts address 256 0) s r
  unfolding init_listener create_sniffer birth_of start_of
  init_listener-IsRunning interfaces client storage s i e address mask first a m pton24 octets calls
        size =
      let clean : Text → Text =
        λ name. printable (to_std_string (change_tr_characters replace name)) in
      let c = client_of clean client i e address mask in
      let s0 = record s { log = s.log ++ content c ∷ [] } in
      let told =
        init_client-first contains replace to_std_string arg inet_pton interfaces client i e address
          mask first a m in
      let listed = segment_ip_list-hosts inet_pton e.ip address octets a pton24 in
      let ends = set_up-EndsBy arg q c.iface storage s0 size in
      let (s', set, handle, log, stderr, descriptors) =
        returns (complaints_of q c.iface) s0 (set_up arg q c.iface storage s0) (rw calls at ends) in
      let added = arg (codes "New Adapter [%1] added to sensor.") (codes "ip") in
      (
        record {
          client = c;
          sniffer = record { client = c; segment_ip_list = hosts address 256 0; m_stop = false };
          thread = new_adapter t;
          setup = record s' { log = s'.log ++ added ∷ [] };
        },
        rw (told, listed, set),
        record {
          told = refl;
          created = refl;
          started = new_adapter_runs t;
          has_handle = handle;
          log =
              omega (
                arith,
                length-append s'.log (added ∷ []),
                length-append s.log (content c ∷ []),
                log,
              );
          stderr = stderr;
          descriptors = descriptors;
        },
      )
