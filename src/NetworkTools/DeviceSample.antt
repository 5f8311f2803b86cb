-- ===== src/NetworkTools/DeviceSample.antt =====
-- Two network interfaces as concrete data, the loopback and a card, and a stand-in for
-- QString::contains.
use ot_tcp_listener.Prelude.{Bool, true, false, ◌&&◌, ◌||◌, [], ◌∷◌, Text, codes, ◌==◌}
use ot_tcp_listener.NetworkTools.Device.{NetworkInterface, AddressEntry, DeviceInfo}

starts_with : Text → Text → Bool
starts_with s [] = true
starts_with [] (c ∷ t) = false
starts_with (d ∷ s) (c ∷ t) = d == c && starts_with s t

unfoldable pub has : Text → Text → Bool
unfolding starts_with
has [] t = starts_with [] t
has (c ∷ s) t = starts_with (c ∷ s) t || has s t

abbrev pub lo : NetworkInterface
lo = record {
  is_valid = true;
  is_up = true;
  is_running = true;
  is_loopback = true;
  is_p2p = false;
  hardware_address = codes "00:00:00:00:00:00";
  name = codes "lo";
  entries =
      record {
        is_local_host = true;
        ipv4 = 0x7f000001;
        ip = codes "127.0.0.1";
        netmask = codes "255.0.0.0";
      }
      ∷ [];
}

abbrev pub eth0_entry : AddressEntry
eth0_entry = record {
  is_local_host = false;
  ipv4 = 0xc0a8014d;
  ip = codes "192.168.1.77";
  netmask = codes "255.255.255.0";
}

abbrev pub eth0 : NetworkInterface
eth0 = record lo {
  is_loopback = false;
  hardware_address = codes "52:54:00:12:34:56";
  name = codes "eth0";
  entries = eth0_entry ∷ [];
}

abbrev pub nothing_found : DeviceInfo
nothing_found = record { device = []; ip = []; mac = []; mask = []; found = false }
