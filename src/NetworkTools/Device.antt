-- ===== src/NetworkTools/Device.antt =====
-- getDeviceInfo of networktools.h. What QNetworkInterface tells is an argument, and so is
-- QString::contains.
use ot_tcp_listener.Prelude.{
  ℕ, Bool, true, false, not, ◌&&◌, ◌||◌, List, [], ◌∷◌, ◌++◌, map, ◌≡◌, refl, ◌∙◌, ap, inl, inr,
  Text, codes, ◌==◌, if◌then◌else◌, Bool-cases,
}
use ot_tcp_listener.NetworkTools.{text_eq}

-- A QNetworkAddressEntry: whether its address is QHostAddress::LocalHost, toIPv4Address, and the texts.
pub record AddressEntry : Type 0 where
  pub is_local_host : Bool
  pub ipv4 : ℕ
  pub ip : Text
  pub netmask : Text

-- A QNetworkInterface
pub record NetworkInterface : Type 0 where
  pub is_valid : Bool
  pub is_up : Bool
  pub is_running : Bool
  pub is_loopback : Bool
  pub is_p2p : Bool
  pub hardware_address : Text
  pub name : Text
  pub entries : List AddressEntry

-- The four reference arguments and the local `found`.
pub record DeviceInfo : Type 0 where
  pub device : Text
  pub ip : Text
  pub mac : Text
  pub mask : Text
  pub found : Bool

-- The `continue` on an interface, and on an entry.
abbrev pub skips_interface : NetworkInterface → Bool
skips_interface i =
    not i.is_valid || (not i.is_up || (not i.is_running || (i.is_loopback || i.is_p2p)))

abbrev pub skips_entry : AddressEntry → Bool
skips_entry e = e.is_local_host || e.ipv4 == 0

module _ (contains : Text → Text → Bool) where
  -- The last condition, but for `!found`.
  abbrev pub is_wanted : NetworkInterface → AddressEntry → Bool
  is_wanted i e =
      not (text_eq i.hardware_address (codes "00:00:00:00:00:00"))
      && (contains e.ip (codes ".") && not (contains i.name (codes "VM")))

  abbrev pub taken : NetworkInterface → AddressEntry → DeviceInfo
  taken i e = record {
    device = i.name;
    ip = e.ip;
    mac = i.hardware_address;
    mask = e.netmask;
    found = true;
  }

  -- The loop over the entries of an interface.
  unfoldable pub visit_entries : NetworkInterface → List AddressEntry → DeviceInfo → DeviceInfo
  visit_entries i [] info = info
  visit_entries i (e ∷ es) info =
      visit_entries i es (
        if skips_entry e then info else if not info.found && is_wanted i e then taken i e else info)

  -- The loop over the interfaces.
  unfoldable pub visit_interfaces : List NetworkInterface → DeviceInfo → DeviceInfo
  visit_interfaces [] info = info
  visit_interfaces (i ∷ is) info =
      visit_interfaces is (if skips_interface i then info else visit_entries i i.entries info)

  unfoldable pub get_device_info : List NetworkInterface → DeviceInfo → DeviceInfo
  get_device_info interfaces info = visit_interfaces interfaces (record info { found = false })

  -- All pairs of an interface and one of its entries, in their order.
  abbrev pub pairs : List NetworkInterface → List (NetworkInterface × AddressEntry)
  pairs [] = []
  pairs (i ∷ is) = map (λ (e : AddressEntry). (i, e)) i.entries ++ pairs is

  abbrev pub is_suitable : NetworkInterface × AddressEntry → Bool
  is_suitable (i, e) = not (skips_interface i) && (not (skips_entry e) && is_wanted i e)

  -- What the first suitable pair gives, if there is one.
  abbrev pub first_suitable : List (NetworkInterface × AddressEntry) → DeviceInfo → DeviceInfo
  first_suitable [] info = info
  first_suitable (p ∷ ps) info = if is_suitable p then taken p.0 p.1 else first_suitable ps info

  -- What a round makes of `info`.
  abbrev round : NetworkInterface → AddressEntry → DeviceInfo → DeviceInfo
  round i e info =
      if skips_entry e then info else if not info.found && is_wanted i e then taken i e else info

  round_found :
      (i : NetworkInterface) (e : AddressEntry) (info : DeviceInfo)
      → info.found ≡ true
      → round i e info ≡ info
  round_found i e info h = elim (Bool-cases (skips_entry e)) [ inl y ↦ rw y | inr n ↦ rw (n, h) ]

  round-taken :
      (i : NetworkInterface) (e : AddressEntry) (info : DeviceInfo)
      → info.found ≡ false
      → skips_interface i ≡ false
      → round i e info ≡ (if is_suitable (i, e) then taken i e else info)
  round-taken i e info h k = elim (Bool-cases (skips_entry e)) [
    | inl y ↦ rw (k, y)
    | inr n ↦ rw (k, n, h)
  ]

  visit_entries_found :
      (i : NetworkInterface) (es : List AddressEntry) (info : DeviceInfo)
      → info.found ≡ true
      → visit_entries i es info ≡ info
  unfolding visit_entries
  visit_entries_found i [] info h = refl
  visit_entries_found i (e ∷ es) info h =
      ap (visit_entries i es) (round_found i e info h) ∙ visit_entries_found i es info h

  visit_interfaces_found :
      (is : List NetworkInterface) (info : DeviceInfo)
      → info.found ≡ true
      → visit_interfaces is info ≡ info
  unfolding visit_interfaces
  visit_interfaces_found [] info h = refl
  visit_interfaces_found (i ∷ is) info h = elim (Bool-cases (skips_interface i)) [
    | inl y ↦ rw y (visit_interfaces_found is info h)
    | inr n ↦ rw (n, visit_entries_found i i.entries info h) (visit_interfaces_found is info h)
  ]

  first_suitable_skipped :
      (i : NetworkInterface) (es : List AddressEntry) (ps : List (NetworkInterface × AddressEntry))
      (info : DeviceInfo)
      → skips_interface i ≡ true
      → first_suitable (map (λ (e : AddressEntry). (i, e)) es ++ ps) info ≡ first_suitable ps info
  first_suitable_skipped i [] ps info h = refl
  first_suitable_skipped i (e ∷ es) ps info h = rw h (first_suitable_skipped i es ps info h)

  visit_entries-first :
      (i : NetworkInterface) (es : List AddressEntry) (is : List NetworkInterface)
      (info : DeviceInfo)
      → info.found ≡ false
      → skips_interface i ≡ false
      → visit_interfaces is info ≡ first_suitable (pairs is) info
      → visit_interfaces is (visit_entries i es info)
        ≡ first_suitable (map (λ (e : AddressEntry). (i, e)) es ++ pairs is) info
  unfolding visit_entries
  visit_entries-first i [] is info h k rest = rest
  visit_entries-first i (e ∷ es) is info h k rest =
      ap (λ d. visit_interfaces is (visit_entries i es d)) (round-taken i e info h k)
      ∙ elim (Bool-cases (is_suitable (i, e))) [
        | inl y ↦
            rw (y, visit_entries_found i es (taken i e) refl)
              (visit_interfaces_found is (taken i e) refl)
        | inr n ↦ rw n (visit_entries-first i es is info h k rest)
      ]

  visit_interfaces-first :
      (is : List NetworkInterface) (info : DeviceInfo)
      → info.found ≡ false
      → visit_interfaces is info ≡ first_suitable (pairs is) info
  unfolding visit_interfaces
  visit_interfaces-first [] info h = refl
  visit_interfaces-first (i ∷ is) info h =
      let rest = visit_interfaces-first is info h in
      elim (Bool-cases (skips_interface i)) [
        | inl y ↦ rw (y, first_suitable_skipped i i.entries (pairs is) info y) rest
        | inr n ↦ rw n (visit_entries-first i i.entries is info h n rest)
      ]

  pub get_device_info-first :
      (interfaces : List NetworkInterface) (info : DeviceInfo)
      → get_device_info interfaces info
        ≡ first_suitable (pairs interfaces) (record info { found = false })
  unfolding get_device_info
  get_device_info-first interfaces info =
      visit_interfaces-first interfaces (record info { found = false }) refl
