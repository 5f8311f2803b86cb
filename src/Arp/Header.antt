-- ===== src/Arp/Header.antt =====
-- The ARP header of arp.h and the frame around it.
use ot_tcp_listener.Prelude.{ℕ, ◌/◌, ◌%◌, ◌∷◌, ◌++◌, Bytes}
use ot_tcp_listener.Net.{Ip, Mac, ip_bytes, mac_bytes, ethertype_ip, ethertype_arp}

abbrev pub arpop_request : ℕ
arpop_request = 1

abbrev pub arp_hdrlen : ℕ
arp_hdrlen = 28

-- struct arp_hdr, its 16-bit fields by their values
pub record ArpHdr : Type 0 where
  pub htype : ℕ
  pub ptype : ℕ
  pub hlen : ℕ
  pub plen : ℕ
  pub opcode : ℕ
  pub sender_mac : Mac
  pub sender_ip : Ip
  pub target_mac : Mac
  pub target_ip : Ip

-- The header in memory; `htons` has put the high byte of the 16-bit fields first.
abbrev pub arp_hdr_bytes : ArpHdr → Bytes
arp_hdr_bytes h =
    (h.htype / 256)
    ∷ (h.htype % 256)
    ∷ (h.ptype / 256)
    ∷ (h.ptype % 256)
    ∷ h.hlen
    ∷ h.plen
    ∷ (h.opcode / 256)
    ∷ (h.opcode % 256)
    ∷ (mac_bytes h.sender_mac
        ++ (ip_bytes h.sender_ip ++ (mac_bytes h.target_mac ++ ip_bytes h.target_ip)))

-- `memset (…, x, 6)`
abbrev pub mac_of : ℕ → Mac
mac_of x = record { m0 = x; m1 = x; m2 = x; m3 = x; m4 = x; m5 = x }

-- The header that the function fills in.
abbrev pub request_header : Mac → Ip → Ip → ArpHdr
request_header src_mac src_ip target_ip = record {
  htype = 1;
  ptype = ethertype_ip;
  hlen = 6;
  plen = 4;
  opcode = arpop_request;
  sender_mac = src_mac;
  sender_ip = src_ip;
  target_mac = mac_of 0;
  target_ip = target_ip;
}

-- The first `frame_length` bytes of `ether_frame`.
unfoldable pub request_frame : Mac → Ip → Ip → Bytes
request_frame src_mac src_ip target_ip =
    mac_bytes (mac_of 0xff)
    ++ (mac_bytes src_mac
        ++ (ethertype_arp / 256)
          ∷ (ethertype_arp % 256)
          ∷ arp_hdr_bytes (request_header src_mac src_ip target_ip))
