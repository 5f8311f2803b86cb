-- ===== src/Sniffer/Setup/Told.antt =====
-- What the constructor of Sniffer leaves where every call of libpcap and the system succeeds.
use ot_tcp_listener.Prelude.{
  ℕ, ◌+◌, ◌≤◌, true, false, [], ◌∷◌, ◌++◌, Option, none, some, ◌≡◌, refl, Bytes, Text, codes,
  length, append-nil, ◌==◌, arith,
}
use ot_tcp_listener.Prelude.Outcome.{ok, copy-take}
use ot_tcp_listener.Sniffer.Setup.{
  PcapSystem, Setup, returned, get_ipmask, start_pcap, install_filter, set_pcap_filter, set_up,
}
use ot_tcp_listener.Sniffer.Setup.Ends.{all_succeed, mask_of}

-- The two messages.
abbrev pub started_text : (Text → Text → Text) → Text → Text
started_text arg iface = arg (codes "Sniffer started with device %1") iface

abbrev pub filter_text : (Text → Text → Text) → Text → Text
filter_text arg iface =
    arg (arg (codes "Set filter [%1] for Sniffer with device %2") (codes "tcp")) iface

module _ (arg : Text → Text → Text) (q : PcapSystem) (iface : Text) where
  -- The outcome of get_ipmask where it succeeds.
  mask_got :
      (o : Option ℕ) (storage : Bytes)
      → q.netmask ≡ o
      → q.mask_socket ≡ true
      → (mask_of o == 0) ≡ false
      → 16 ≤ length storage
      → get_ipmask q storage ≡ ok (mask_of o, 0, [])
  unfolding get_ipmask
  mask_got none storage e k z h = ground (arith, z)
  mask_got (some m) storage e k z h = rw (e, k, copy-take 16 0 storage (omega arith))

  pub set_up-returned :
      (storage : Bytes) (s : Setup)
      → all_succeed q ≡ true
      → 16 ≤ length storage
      → set_up arg q iface storage s
        ≡ ok (
            returned (record s {
              handle = true;
              log = (s.log ++ started_text arg iface ∷ []) ++ filter_text arg iface ∷ [];
            }))
  unfolding set_up start_pcap set_pcap_filter install_filter get_ipmask
  set_up-returned storage s all h =
      let live : q.live ≡ true = ground arith in
      let non_blocking : q.non_blocking ≡ true = ground arith in
      let datalink : q.datalink ≡ true = ground arith in
      let socket : q.mask_socket ≡ true = ground arith in
      let known : (mask_of q.netmask == 0) ≡ false = ground arith in
      let compiled : q.compiled ≡ true = ground arith in
      let filter_set : q.filter_set ≡ true = ground arith in
      let same : s.descriptors + 0 ≡ s.descriptors = omega arith in
      rw (
        live,
        non_blocking,
        datalink,
        mask_got q.netmask storage refl socket known h,
        known,
        compiled,
        filter_set,
        same,
        append-nil s.stderr,
      )
