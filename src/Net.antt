-- ===== src/Net.antt =====
-- What the program uses of the C library for addresses and numbers, and the constants and header
-- layouts of helper.h. Numbers in network byte order are read as words, the high byte first.
pub mod Decimal
pub mod Stoi
pub mod Ntoa
pub mod CString
use ot_tcp_listener.Prelude.{
  ℕ, zero, suc, ◌+◌, ◌*◌, ◌/◌, ◌%◌, List, [], ◌∷◌, ◌++◌, Bytes, Text, codes, ltb, if◌then◌else◌,
}
use ot_tcp_listener.Prelude.Outcome.{Outcome, ok, fault, ◌>>=◌, read}
use Decimal.{to_string}

abbrev pub port_mbtcp : ℕ
port_mbtcp = 502

-- ETHERTYPE_IP and ETHERTYPE_ARP
abbrev pub ethertype_ip : ℕ
ethertype_ip = 0x0800

abbrev pub ethertype_arp : ℕ
ethertype_arp = 0x0806

-- sizeof(struct ether_header)
abbrev pub ether_header_size : ℕ
ether_header_size = 14

-- An IPv4 address and a hardware address by their bytes.
pub record Ip : Type 0 where
  pub a : ℕ
  pub b : ℕ
  pub c : ℕ
  pub d : ℕ

pub record Mac : Type 0 where
  pub m0 : ℕ
  pub m1 : ℕ
  pub m2 : ℕ
  pub m3 : ℕ
  pub m4 : ℕ
  pub m5 : ℕ

abbrev pub ip_bytes : Ip → Bytes
ip_bytes x = x.a ∷ x.b ∷ x.c ∷ x.d ∷ []

abbrev pub mac_bytes : Mac → Bytes
mac_bytes x = x.m0 ∷ x.m1 ∷ x.m2 ∷ x.m3 ∷ x.m4 ∷ x.m5 ∷ []

-- inet_ntoa: dotted decimal
unfoldable pub inet_ntoa : Ip → Text
inet_ntoa x =
    to_string x.a
    ++ (codes "."
        ++ (to_string x.b ++ (codes "." ++ (to_string x.c ++ (codes "." ++ to_string x.d)))))

abbrev pub hex_digit : ℕ → ℕ
hex_digit d = if ltb d 10 then b'0' + d else d + 87

-- A byte in hexadecimal, as printf's %x prints it.
unfoldable pub hex : ℕ → Text
hex b = if ltb b 16 then hex_digit b ∷ [] else hex_digit (b / 16) ∷ hex_digit (b % 16) ∷ []

-- ether_ntoa: hexadecimal bytes with no leading zeros, between colons
unfoldable pub ether_ntoa : Mac → Text
ether_ntoa x =
    hex x.m0
    ++ (codes ":"
        ++ (hex x.m1
            ++ (codes ":"
                ++ (hex x.m2
                    ++ (codes ":"
                        ++ (hex x.m3 ++ (codes ":" ++ (hex x.m4 ++ (codes ":" ++ hex x.m5)))))))))

-- A 16-bit field, an address and a hardware address at an offset of a buffer.
abbrev pub read_word : Bytes → ℕ → Outcome ℕ
read_word p i = do hi ← read p i; lo ← read p (i + 1); ok (hi * 256 + lo)

abbrev pub read_ip : Bytes → ℕ → Outcome Ip
read_ip p i = do
  a ← read p i
  b ← read p (i + 1)
  c ← read p (i + 2)
  d ← read p (i + 3)
  ok (record { a = a; b = b; c = c; d = d })

abbrev pub read_mac : Bytes → ℕ → Outcome Mac
read_mac p i = do
  m0 ← read p i
  m1 ← read p (i + 1)
  m2 ← read p (i + 2)
  m3 ← read p (i + 3)
  m4 ← read p (i + 4)
  m5 ← read p (i + 5)
  ok (record { m0 = m0; m1 = m1; m2 = m2; m3 = m3; m4 = m4; m5 = m5 })
