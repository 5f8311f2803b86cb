-- ===== src/NetworkTools/Address.antt =====
-- geNetSegment of networktools.h, and the masks on addresses. inet_pton is a parameter; where it
-- fails the code goes on with an address that was never set.
use Prim.Native.Nat.{bit_and, bit_or}
use ot_tcp_listener.Prelude.{
  ℕ, ◌-◌, ◌<◌, Bool, ◌&&◌, Option, none, some, ◌≡◌, refl, Text, ◌==◌, arith,
}
use ot_tcp_listener.Prelude.Search.{exception_below, no_exception}
use ot_tcp_listener.Prelude.Outcome.{Outcome, ok, dangling, or_fault, ◌>>=◌}
use ot_tcp_listener.Net.{Ip, inet_ntoa}

-- `ipaddress.s_addr & subnetmask.s_addr`, byte by byte
unfoldable pub and_mask : Ip → Ip → Ip
and_mask x m = record {
  a = bit_and x.a m.a;
  b = bit_and x.b m.b;
  c = bit_and x.c m.c;
  d = bit_and x.d m.d;
}

-- `ipaddress.s_addr | ~(subnetmask.s_addr)`
unfoldable pub or_not_mask : Ip → Ip → Ip
or_not_mask x m = record {
  a = bit_or x.a (255 - m.a);
  b = bit_or x.b (255 - m.b);
  c = bit_or x.c (255 - m.c);
  d = bit_or x.d (255 - m.d);
}

unfoldable pub ge_net_segment : (Text → Option Ip) → Text → Text → Outcome Text
ge_net_segment inet_pton iface_ip mask = do
  ipaddress ← or_fault dangling (inet_pton iface_ip)
  subnetmask ← or_fault dangling (inet_pton mask)
  ok (inet_ntoa (and_mask ipaddress subnetmask))

-- The mask 255.255.255.0.
abbrev pub mask24 : Ip
mask24 = record { a = 255; b = 255; c = 255; d = 0 }

-- Whether a byte is kept by the bits 255 and cleared or filled by the bits of 0 and 255.
abbrev masks_hold : ℕ → Bool
masks_hold x = bit_and x 255 == x && (bit_and x 0 == 0 && (bit_or x 0 == x && bit_or x 255 == 255))

bytes_hold : exception_below masks_hold 256 ≡ none
unfolding exception_below
bytes_hold = refl

byte_laws :
    (x : ℕ)
    → x < 256
    → (bit_and x 255 ≡ x) × (bit_and x 0 ≡ 0) × (bit_or x 0 ≡ x) × (bit_or x 255 ≡ 255)
byte_laws x h = ground (arith, no_exception masks_hold 256 x h bytes_hold)

-- With the mask 255.255.255.0 the last octet is cleared, or filled.
pub mask24_laws :
    (x : Ip)
    → x.a < 256
    → x.b < 256
    → x.c < 256
    → x.d < 256
    → (and_mask x mask24 ≡ record x { d = 0 }) × (or_not_mask x mask24 ≡ record x { d = 255 })
unfolding and_mask or_not_mask
mask24_laws x a b c d =
    ground (arith, byte_laws x.a a, byte_laws x.b b, byte_laws x.c c, byte_laws x.d d)

-- Where inet_pton knows the address, four octets, and takes the mask for 255.255.255.0, the
-- network segment is the address with its last octet 0.
pub ge_net_segment_24 :
    (inet_pton : Text → Option Ip) (iface_ip mask : Text) (x : Ip)
    → inet_pton iface_ip ≡ some x
    → inet_pton mask ≡ some mask24
    → x.a < 256
    → x.b < 256
    → x.c < 256
    → x.d < 256
    → ge_net_segment inet_pton iface_ip mask ≡ ok (inet_ntoa (record x { d = 0 }))
unfolding ge_net_segment
ge_net_segment_24 inet_pton iface_ip mask x e e' a b c d = rw (e, e', (mask24_laws x a b c d).0)
