-- ===== src/Service/Client.antt =====
-- The part of OtListener::init that fills in the client record and tells it to the log. The calls of
-- Qt and of inet_pton are parameters.
use ot_tcp_listener.Prelude.{Bool, false, List, [], ◌∷◌, ◌++◌, Option, some, ◌≡◌, Text, codes}
use ot_tcp_listener.Prelude.Outcome.{Outcome, ok, ◌>>=◌}
use ot_tcp_listener.Net.{Ip, inet_ntoa}
use ot_tcp_listener.NetworkTools.Address.{ge_net_segment, and_mask}
use ot_tcp_listener.NetworkTools.Clean.{
  printable, clean_q_string, change_tr_characters, remove_specials-printable,
}
use ot_tcp_listener.NetworkTools.Device.{
  NetworkInterface, AddressEntry, DeviceInfo, get_device_info, taken, first_suitable, pairs,
  get_device_info-first,
}

-- otclient
pub record OtClient : Type 0 where
  pub iface : Text
  pub iface_ip : Text
  pub iface_mac : Text
  pub net_segment : Text
  pub type : Text
  pub authorized : Bool
  pub debug : Bool

abbrev pub new_client : OtClient
new_client = record {
  iface = [];
  iface_ip = [];
  iface_mac = [];
  net_segment = [];
  type = [];
  authorized = false;
  debug = false;
}

-- The message with the client's data.
unfoldable pub content : OtClient → Text
content c =
    codes "Ot Listener Info:\n"
    ++ (codes "Interface : "
        ++ (c.iface
            ++ (codes "\n"
                ++ (codes "Ip : "
                    ++ (c.iface_ip
                        ++ (codes "\n"
                            ++ (codes "Mac : "
                                ++ (c.iface_mac
                                    ++ (codes "\n"
                                        ++ (codes "Netsegment : " ++ c.net_segment))))))))))

-- The four locals of `init`, before getDeviceInfo.
abbrev pub no_device : DeviceInfo
no_device = record { device = []; ip = []; mac = []; mask = []; found = false }

module _ (contains : Text → Text → Bool) (replace : Text → Text → Text → Text)
    (to_std_string : Text → Text) (arg : Text → Text → Text) (inet_pton : Text → Option Ip) where
  -- The client record, and the messages before and after the adapter is made.
  unfoldable pub init_client : List NetworkInterface → OtClient → Outcome (OtClient × List Text)
  init_client interfaces client =
      let info = get_device_info contains interfaces no_device in
      do
        iface ← clean_q_string replace to_std_string info.device
        segment ← ge_net_segment inet_pton info.ip info.mask
        let client' = record client {
          type = codes "sensor";
          iface = iface;
          iface_ip = info.ip;
          iface_mac = info.mac;
          net_segment = segment ++ codes "/24";
        }
        ok (
          client',
          content client' ∷ arg (codes "New Adapter [%1] added to sensor.") (codes "ip") ∷ [],
        )

  -- Where there is a suitable pair of an interface and an entry, and inet_pton knows the texts of
  -- its address and mask: OtListener::init fills the client with the cleaned name, the address and
  -- the hardware address of the first such pair, and with its network segment, always followed by
  -- /24, and writes two messages, the first of which tells these data.
  pub init_client-first :
      (interfaces : List NetworkInterface) (client : OtClient) (i : NetworkInterface)
      (e : AddressEntry) (address mask : Ip)
      → first_suitable contains (pairs contains interfaces) no_device ≡ taken contains i e
      → inet_pton e.ip ≡ some address
      → inet_pton e.netmask ≡ some mask
      → let client' = record client {
        type = codes "sensor";
        iface = printable (to_std_string (change_tr_characters replace i.name));
        iface_ip = e.ip;
        iface_mac = i.hardware_address;
        net_segment = inet_ntoa (and_mask address mask) ++ codes "/24";
      } in
        init_client interfaces client
        ≡ ok (
          client',
          content client' ∷ arg (codes "New Adapter [%1] added to sensor.") (codes "ip") ∷ [],
        )
  unfolding init_client clean_q_string ge_net_segment
  init_client-first interfaces client i e address mask first a m = rw (
    get_device_info-first contains interfaces no_device,
    first,
    remove_specials-printable (to_std_string (change_tr_characters replace i.name)),
    a,
    m,
  )
