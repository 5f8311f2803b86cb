-- ===== src/Sniffer/Fields.antt =====
-- The fields of a packet at offsets, and the reads of sniffer.cpp that give them.
use mathlib.Core.Option
use ot_tcp_listener.Prelude.{
  ℕ, ◌+◌, ◌*◌, ◌≤◌, ◌<◌, ◌≡◌, ◌⊎◌, inl, refl, Bytes, Text, codes, [], ◌==◌, if◌then◌else◌, length,
  arith, get_elem?, get_elem?-some, get_elem?-none,
}
use ot_tcp_listener.Prelude.Outcome.{Outcome, ok, fault, out_of_bounds, ◌>>=◌, read}
use ot_tcp_listener.Sniffer.Ip.{packet_type_of}
use ot_tcp_listener.Net.{Ip, Mac, read_word, read_ip, read_mac}

-- Fields of a packet at an offset, where a byte that is not there is 0.
abbrev pub byte_at : Bytes → ℕ → ℕ
byte_at p i = Option.get_or (get_elem? p i) 0

abbrev pub word_at : Bytes → ℕ → ℕ
word_at p i = byte_at p i * 256 + byte_at p (i + 1)

-- What a packet is called, by its ports: Modbus/TCP is port 502.
abbrev pub type_text : ℕ → ℕ → Text
type_text src_port dst_port =
    if src_port == 502
    then if dst_port == 502 then [] else codes "Modbus Response Packet"
    else if dst_port == 502
    then codes "Modbus Query Packet"
    else []

pub packet_type_of-type_text :
    (src_port dst_port : ℕ) → packet_type_of src_port dst_port ≡ type_text src_port dst_port
unfolding packet_type_of
packet_type_of-type_text src_port dst_port = ground arith

abbrev pub ip_at : Bytes → ℕ → Ip
ip_at p i = record {
  a = byte_at p i;
  b = byte_at p (i + 1);
  c = byte_at p (i + 2);
  d = byte_at p (i + 3);
}

abbrev pub mac_at : Bytes → ℕ → Mac
mac_at p i = record {
  m0 = byte_at p i;
  m1 = byte_at p (i + 1);
  m2 = byte_at p (i + 2);
  m3 = byte_at p (i + 3);
  m4 = byte_at p (i + 4);
  m5 = byte_at p (i + 5);
}

pub read-byte_at : (p : Bytes) (i : ℕ) → i < length p → read p i ≡ ok (byte_at p i)
read-byte_at p i h = let (b, e) = get_elem?-some p i h in rw e

pub read_past : (p : Bytes) (i : ℕ) → length p ≤ i → read p i ≡ fault out_of_bounds
read_past p i h = rw (get_elem?-none p i h)

-- A field whose last byte is there.
pub read_word-word_at : (p : Bytes) (i : ℕ) → i + 1 < length p → read_word p i ≡ ok (word_at p i)
read_word-word_at p i h = rw (read-byte_at p i (omega arith), read-byte_at p (i + 1) (omega arith))

pub read_ip-ip_at : (p : Bytes) (i : ℕ) → i + 3 < length p → read_ip p i ≡ ok (ip_at p i)
read_ip-ip_at p i h = rw (
  read-byte_at p i (omega arith),
  read-byte_at p (i + 1) (omega arith),
  read-byte_at p (i + 2) (omega arith),
  read-byte_at p (i + 3) (omega arith),
)

pub read_mac-mac_at : (p : Bytes) (i : ℕ) → i + 5 < length p → read_mac p i ≡ ok (mac_at p i)
read_mac-mac_at p i h = rw (
  read-byte_at p i (omega arith),
  read-byte_at p (i + 1) (omega arith),
  read-byte_at p (i + 2) (omega arith),
  read-byte_at p (i + 3) (omega arith),
  read-byte_at p (i + 4) (omega arith),
  read-byte_at p (i + 5) (omega arith),
)

-- A read gives a value or goes past the end.
abbrev pub IsRead {ℓ} : {A : Type ℓ} → Outcome A → Type ℓ
IsRead {A} o = ((a : A) × (o ≡ ok a)) ⊎ (o ≡ fault out_of_bounds)

read-IsRead : (p : Bytes) (i : ℕ) → IsRead (read p i)
read-IsRead p i = ground arith

IsRead-bind {ℓ κ} :
    {A : Type ℓ} {B : Type κ} (o : Outcome A) (f : A → Outcome B)
    → IsRead o
    → ((a : A) → IsRead (f a))
    → IsRead (o >>= f)
IsRead-bind (ok a) f h k = k a
IsRead-bind (fault e) f h k = ground arith

-- What follows a read can be only its fault if it would be that fault anyway.
pub IsRead-past {ℓ κ} :
    {A : Type ℓ} {B : Type κ} (o : Outcome A) (f : A → Outcome B)
    → IsRead o
    → ((a : A) → f a ≡ fault out_of_bounds)
    → (o >>= f) ≡ fault out_of_bounds
IsRead-past (ok a) f h k = k a
IsRead-past (fault e) f h k = ground arith

-- A field whose last byte is not there.
pub read_word_past : (p : Bytes) (i : ℕ) → length p ≤ i + 1 → read_word p i ≡ fault out_of_bounds
read_word_past p i h =
    let past = read_past p (i + 1) h in IsRead-past (read p i) _ (read-IsRead p i) λ hi. rw past

pub read_ip_past : (p : Bytes) (i : ℕ) → length p ≤ i + 3 → read_ip p i ≡ fault out_of_bounds
read_ip_past p i h =
    let past = read_past p (i + 3) h in
    IsRead-past (read p i) _ (read-IsRead p i) λ a.
      IsRead-past (read p (i + 1)) _ (read-IsRead p (i + 1))
        λ b. IsRead-past (read p (i + 2)) _ (read-IsRead p (i + 2)) λ c. rw past

pub read_ip-IsRead : (p : Bytes) (i : ℕ) → IsRead (read_ip p i)
read_ip-IsRead p i = IsRead-bind (read p i) _ (read-IsRead p i) λ a.
    IsRead-bind (read p (i + 1)) _ (read-IsRead p (i + 1)) λ b.
      IsRead-bind (read p (i + 2)) _ (read-IsRead p (i + 2))
        λ c. IsRead-bind (read p (i + 3)) _ (read-IsRead p (i + 3)) λ d. inl (_, refl)

pub read_mac-IsRead : (p : Bytes) (i : ℕ) → IsRead (read_mac p i)
read_mac-IsRead p i = IsRead-bind (read p i) _ (read-IsRead p i) λ a.
    IsRead-bind (read p (i + 1)) _ (read-IsRead p (i + 1)) λ b.
      IsRead-bind (read p (i + 2)) _ (read-IsRead p (i + 2)) λ c.
        IsRead-bind (read p (i + 3)) _ (read-IsRead p (i + 3)) λ d.
          IsRead-bind (read p (i + 4)) _ (read-IsRead p (i + 4))
            λ e. IsRead-bind (read p (i + 5)) _ (read-IsRead p (i + 5)) λ f. inl (_, refl)
