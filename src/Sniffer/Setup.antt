-- ===== src/Sniffer/Setup.antt =====
-- Sniffer::StartPcap and Sniffer::SetPcapFilter of sniffer.cpp, with get_ipmask of networktools.h.
-- What libpcap and the system give is an argument.
pub mod Ends
pub mod Told
use ot_tcp_listener.Prelude.{
  ℕ, zero, suc, get_elem?-some, length-append, Bool-cases, ap, ◌∙◌, ◌+◌, ◌≤◌, Bool, true, false,
  not, ◌&&◌, List, [], ◌∷◌, ◌++◌, Option, none, some, ◌≡◌, inl, inr, refl, Bytes, Text, codes,
  length, append_assoc, append-nil, ◌==◌, if◌then◌else◌, arith,
}
use ot_tcp_listener.Prelude.Outcome.{Outcome, ok, ◌>>=◌, copy}

-- What the calls give, in the order in which they are made.
pub record PcapSystem : Type 0 where
  -- pcap_open_live
  pub live : Bool
  -- pcap_setnonblock and pcap_set_datalink give 0
  pub non_blocking : Bool
  pub datalink : Bool
  -- socket (AF_INET, SOCK_DGRAM, 0)
  pub mask_socket : Bool
  -- ioctl (sd, SIOCGIFNETMASK, &ifr)
  pub netmask : Option ℕ
  -- pcap_compile and pcap_setfilter do not give -1
  pub compiled : Bool
  pub filter_set : Bool
  -- error_buffer, and the texts of pcap_perror and pcap_geterr
  pub error_buffer : Text
  pub perror_text : Text
  pub geterr_text : Text
  -- the text of the error behind that of perror in get_ipmask
  pub mask_error : Text

-- What the two functions change: `handle`, the standard error, the log, and the descriptors that
-- stay open.
pub record Setup : Type 0 where
  pub handle : Bool
  pub stderr : List Text
  pub log : List Text
  pub descriptors : ℕ

-- The function returns, or it calls exit(EXIT_FAILURE).
pub data Ending : Type 0 where
  returned : Setup → Ending
  exited : Setup → Ending

abbrev complain : Text → Setup → Ending
complain message s = exited (record s { stderr = s.stderr ++ message ∷ [] })

-- perror in get_ipmask
abbrev pub mask_complaint : PcapSystem → Text → Text
mask_complaint q message = message ++ (codes ": " ++ (q.mask_error ++ codes "\n"))

-- The mask, or 0 on a failure, the number of descriptors that stay open, and what is complained of.
-- `iface` is the storage that the pointer points into; IFNAMSIZ bytes of it are copied.
unfoldable pub get_ipmask : PcapSystem → Bytes → Outcome (ℕ × ℕ × List Text)
get_ipmask q iface =
    let mask = do
      name ← copy 16 0 iface
      ok (elim q.netmask [
        | none ↦ (0, 1, mask_complaint q (codes "ioctl(SIOCGIFADDR)") ∷ [])
        | some m ↦ (m, 0, [])
      ])
    in if q.mask_socket then mask else ok (0, 0, mask_complaint q (codes "socket") ∷ [])

-- The texts of the complaints.
abbrev pub unable_text : PcapSystem → Text → Text
unable_text q iface =
    codes "Unable to create pcap for interface "
    ++ (iface ++ (codes " (" ++ (q.error_buffer ++ codes ").\n")))

abbrev pub no_mask_text : Text
no_mask_text = codes "Can not get ip mask\n"

module _ (arg : Text → Text → Text) (q : PcapSystem) (iface : Text) where
  unfoldable pub start_pcap : Setup → Ending
  start_pcap s =
      let s' = record s { handle = true } in
      if not q.live
      then complain (unable_text q iface) (record s { handle = false })
      else if not q.non_blocking
      then complain (codes "Error placing pcap interface in non-blocking mode.\n") s'
      else if not q.datalink
      then complain q.perror_text s'
      else returned
          (record s' { log = s.log ++ arg (codes "Sniffer started with device %1") iface ∷ [] })

  -- What follows the call of get_ipmask.
  unfoldable pub install_filter : Text → ℕ → Setup → Ending
  install_filter filter_exp ipmask s =
      let told = arg (arg (codes "Set filter [%1] for Sniffer with device %2") filter_exp) iface in
      if ipmask == 0
      then complain no_mask_text s
      else if not q.compiled
      then complain (codes "Bad filter - " ++ (q.geterr_text ++ codes "\n")) s
      else if not q.filter_set
      then complain (codes "Error setting filter - " ++ (q.geterr_text ++ codes "\n")) s
      else returned (record s { log = s.log ++ told ∷ [] })

  unfoldable pub set_pcap_filter : Text → Bytes → Setup → Outcome Ending
  set_pcap_filter filter_exp storage s = do
    (ipmask, left_open, told) ← get_ipmask q storage
    ok (
        install_filter filter_exp ipmask
          (record s { descriptors = s.descriptors + left_open; stderr = s.stderr ++ told }))

  -- The end of the constructor.
  unfoldable pub set_up : Bytes → Setup → Outcome Ending
  set_up storage s = elim (start_pcap s) [
    | returned s' ↦ set_pcap_filter (codes "tcp") storage s'
    | exited s' ↦ ok (exited s')
  ]
