-- ===== src/Sniffer/Arp.antt =====
-- Sniffer::processArpPacket of sniffer.cpp, with intToHexString of networktools.h.
use ot_tcp_listener.Prelude.{
  ℕ, ◌+◌, ◌/◌, ◌%◌, ◌||◌, [], ◌∷◌, ◌++◌, Option, none, some, Bytes, Text, codes, ◌==◌,
  if◌then◌else◌,
}
use ot_tcp_listener.Prelude.Outcome.{Outcome, ok, ◌>>=◌}
use ot_tcp_listener.Net.{
  Mac, ether_header_size, ethertype_ip, hex_digit, inet_ntoa, read_word, read_ip, read_mac,
}

abbrev pub arp_request : ℕ
arp_request = 1

abbrev pub arp_reply : ℕ
arp_reply = 2

-- Of a byte, which is all that the callers hand over: two hexadecimal digits.
unfoldable pub int_to_hex_string : ℕ → Text
int_to_hex_string n = hex_digit (n / 16) ∷ hex_digit (n % 16) ∷ []

-- The text `smac` of the handler.
unfoldable pub mac_text : Mac → Text
unfolding int_to_hex_string
mac_text x =
    int_to_hex_string x.m0
    ++ (codes ":"
        ++ (int_to_hex_string x.m1
            ++ (codes ":"
                ++ (int_to_hex_string x.m2
                    ++ (codes ":"
                        ++ (int_to_hex_string x.m3
                            ++ (codes ":"
                                ++ (int_to_hex_string x.m4
                                    ++ (codes ":" ++ int_to_hex_string x.m5)))))))))

-- The handler keeps nothing: the result is its last locals, `srcIp` and `srcMac`, where it gets to
-- them. `sip` is spelled as inet_ntoa spells it.
unfoldable pub process_arp_packet : Bytes → Outcome (Option (Text × Text))
process_arp_packet packet = do
  op ← read_word packet (ether_header_size + 6)
  let known = do
    pro ← read_word packet (ether_header_size + 2)
    let addresses = do
      spa ← read_ip packet (ether_header_size + 14)
      sha ← read_mac packet (ether_header_size + 8)
      ok (some (inet_ntoa spa, mac_text sha))
    if pro == ethertype_ip then addresses else ok none
  if op == arp_request || op == arp_reply then known else ok none
