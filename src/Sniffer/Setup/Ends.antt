-- ===== src/Sniffer/Setup/Ends.antt =====
-- How the set-up of a Sniffer ends: with everything it needs, or with complaints.
use ot_tcp_listener.Prelude.{
  ℕ, zero, suc, get_elem?-some, length-append, Bool-cases, ◌+◌, ◌≤◌, Bool, true, false, not, ◌&&◌,
  List, [], ◌∷◌, ◌++◌, Option, none, some, ◌≡◌, inl, inr, refl, Bytes, Text, codes, length,
  append_assoc, append-nil, ◌==◌, if◌then◌else◌, arith,
}
use ot_tcp_listener.Prelude.Outcome.{Outcome, ok, copy}
use ot_tcp_listener.Sniffer.Setup.{
  PcapSystem, Setup, Ending, returned, exited, mask_complaint, get_ipmask, unable_text,
  no_mask_text, start_pcap, install_filter, set_pcap_filter, set_up,
}

copy_fits :
    (n offset : ℕ) (p : Bytes)
    → offset + n ≤ length p
    → (bytes : Bytes) × (copy n offset p ≡ ok bytes)
unfolding copy
copy_fits zero offset p h = ([], refl)
copy_fits (suc n) offset p h =
    let (b, e) = get_elem?-some p offset (omega arith) in
    let (rest, e') = copy_fits n (offset + 1) p (omega arith) in (b ∷ rest, rw (e, e'))

abbrev pub mask_of : Option ℕ → ℕ
mask_of none = 0
mask_of (some m) = m

-- Whether every call succeeds.
abbrev pub all_succeed : PcapSystem → Bool
all_succeed q =
    q.live
    && (q.non_blocking
        && (q.datalink
            && (q.mask_socket && (not (mask_of q.netmask == 0) && (q.compiled && q.filter_set)))))

-- What is complained of where a mask is not there, or is 0, or a filter is not.
abbrev pub mask_complaints : PcapSystem → Option ℕ → List Text
mask_complaints q none = mask_complaint q (codes "ioctl(SIOCGIFADDR)") ∷ no_mask_text ∷ []
mask_complaints q (some m) =
    if m == 0
    then no_mask_text ∷ []
    else if not q.compiled
    then (codes "Bad filter - " ++ (q.geterr_text ++ codes "\n")) ∷ []
    else (codes "Error setting filter - " ++ (q.geterr_text ++ codes "\n")) ∷ []

-- What is complained of where a call fails, by the first that does.
abbrev pub complaints_of : PcapSystem → Text → List Text
complaints_of q iface =
    if not q.live
    then unable_text q iface ∷ []
    else if not q.non_blocking
    then codes "Error placing pcap interface in non-blocking mode.\n" ∷ []
    else if not q.datalink
    then q.perror_text ∷ []
    else if not q.mask_socket
    then mask_complaint q (codes "socket") ∷ no_mask_text ∷ []
    else mask_complaints q q.netmask

-- With every call successful the constructor comes to its end with a handle, two messages in the
-- log and no descriptor left open; otherwise the process ends after these complaints.
abbrev pub EndsBy : Bool → List Text → Setup → Outcome Ending → Type 0
EndsBy true told s (ok (returned s')) =
    (s'.handle ≡ true)
    × (length s'.log ≡ length s.log + 2)
    × (s'.stderr ≡ s.stderr)
    × (s'.descriptors ≡ s.descriptors)
EndsBy false told s (ok (exited s')) = s'.stderr ≡ s.stderr ++ told
EndsBy _ told s _ = ⊥

module _ (arg : Text → Text → Text) (q : PcapSystem) (iface : Text) where
  install_filter-EndsBy :
      (filter_exp : Text) (m : ℕ) (s s' : Setup)
      → s'.handle ≡ true
      → length s'.log ≡ length s.log + 1
      → s'.stderr ≡ s.stderr
      → s'.descriptors ≡ s.descriptors
      → EndsBy
          (not (m == 0) && (q.compiled && q.filter_set))
          (mask_complaints q (some m))
          s
          (ok (install_filter arg q iface filter_exp m s'))
  unfolding install_filter
  install_filter-EndsBy filter_exp m s s' a b c d = elim (Bool-cases (m == 0)) [
    | inl z ↦ rw (z, c)
    | inr m' ↦ elim (Bool-cases q.compiled) [
      | inr n ↦ rw (m', n, c)
      | inl k ↦ elim (Bool-cases q.filter_set) [
        | inr n ↦ rw (m', k, n, c)
        | inl l ↦ rw (m', k, l) (a, omega (arith, length-append s'.log (_ ∷ []), b), c, d)
      ]
    ]
  ]

  -- With the first three calls successful.
  started : Setup → Setup
  started s = record s {
    handle = true;
    log = s.log ++ arg (codes "Sniffer started with device %1") iface ∷ [];
  }

  netmask_ends :
      (o : Option ℕ) (storage : Bytes) (s : Setup)
      → q.mask_socket ≡ true
      → q.netmask ≡ o
      → 16 ≤ length storage
      → EndsBy
          (not (mask_of o == 0) && (q.compiled && q.filter_set))
          (mask_complaints q o)
          s
          (set_pcap_filter arg q iface (codes "tcp") storage (started s))
  unfolding set_pcap_filter get_ipmask install_filter started
  netmask_ends none storage s k e h =
      rw (k, e, (copy_fits 16 0 storage (omega arith)).1) (append_assoc s.stderr (_ ∷ []) (_ ∷ []))
  netmask_ends (some m) storage s k e h =
      rw (k, e, (copy_fits 16 0 storage (omega arith)).1)
        (install_filter-EndsBy (codes "tcp") m s
          (record (started s) { descriptors = s.descriptors + 0; stderr = s.stderr ++ [] }) refl
          (length-append s.log (_ ∷ [])) (append-nil s.stderr) (omega arith))

  set_pcap_filter-EndsBy :
      (storage : Bytes) (s : Setup)
      → 16 ≤ length storage
      → EndsBy
          (q.mask_socket && (not (mask_of q.netmask == 0) && (q.compiled && q.filter_set)))
          (if not q.mask_socket
            then mask_complaint q (codes "socket") ∷ no_mask_text ∷ []
            else mask_complaints q q.netmask)
          s
          (set_pcap_filter arg q iface (codes "tcp") storage (started s))
  unfolding set_pcap_filter get_ipmask install_filter started
  set_pcap_filter-EndsBy storage s h = elim (Bool-cases q.mask_socket) [
    | inl k ↦ let told = netmask_ends q.netmask storage s k refl h in rw k (rw k at told)
    | inr n ↦ rw n (append_assoc s.stderr (_ ∷ []) (_ ∷ []))
  ]

  -- Where the storage of the name that get_ipmask copies has 16 bytes or more: with every call of
  -- libpcap and the system successful, and a mask that is not 0, the constructor of Sniffer comes
  -- to its end with a handle, two more messages in the log, no complaint and no descriptor left
  -- open; otherwise the process ends after the complaints of the first call that fails.
  pub set_up-EndsBy :
      (storage : Bytes) (s : Setup)
      → 16 ≤ length storage
      → EndsBy (all_succeed q) (complaints_of q iface) s (set_up arg q iface storage s)
  unfolding set_up start_pcap started set_pcap_filter get_ipmask install_filter
  set_up-EndsBy storage s h = elim (Bool-cases q.live) [
    | inr n ↦ rw n
    | inl a ↦ elim (Bool-cases q.non_blocking) [
      | inr n ↦ rw (a, n)
      | inl b ↦ elim (Bool-cases q.datalink) [
        | inr n ↦ rw (a, b, n)
        | inl c ↦ rw (a, b, c) (set_pcap_filter-EndsBy storage s h)
      ]
    ]
  ]
