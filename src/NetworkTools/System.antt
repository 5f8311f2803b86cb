-- ===== src/NetworkTools/System.antt =====
-- The small helpers of networktools.h around the list of assets, truth values, and what the machine
-- tells of itself. What the system and the HTTP library give is an argument.
use ot_tcp_listener.Prelude.{
  ℕ, Bool, true, false, ◌||◌, List, [], ◌∷◌, ◌++◌, Option, none, some, ◌≡◌, Bytes, Text, codes,
  if◌then◌else◌, All, ◌≢◌, ◌<◌, ◌≤◌, ◌+◌, length, drop, Bool-cases, ltb, inl, inr, arith, sym,
}
use mathlib.Core.Path.{subst}
use ot_tcp_listener.Prelude.Outcome.{Outcome, ok, fault, no_return, out_of_bounds}
use ot_tcp_listener.Net.Decimal.{to_string}
use ot_tcp_listener.Net.CString.{
  c_string, write_string, c_string-append, write_string_fits, write_string_long,
}

-- Contains: std::find, with the `==` of the elements, against the end of the list.
unfoldable pub contains {ℓ} : {A : Type ℓ} → (A → A → Bool) → List A → A → Bool
contains eq [] element = false
contains eq (x ∷ list) element = eq x element || contains eq list element

unfoldable pub bool_to_string : Bool → Text
bool_to_string b = if b then codes "true" else codes "false"

-- StringToBool, with QString::contains; after its two tests no `return` follows.
unfoldable pub string_to_bool : (Text → Text → Bool) → Text → Outcome Bool
string_to_bool has b =
    if has b (codes "true")
    then ok true
    else if has b (codes "false")
    then ok false
    else fault no_return

-- getLocalHostName: QHostInfo::localHostName
abbrev pub get_local_host_name : Text → Text
get_local_host_name host_name = host_name

-- What http::Request::send comes to: the body of a response, or the text of an exception.
pub data Reply : Type 0 where
  body : Text → Reply
  exception : Text → Reply

-- What getVendor returns, `vendor` afterwards, and what it prints.
pub record Vendor : Type 0 where
  pub found : Bool
  pub vendor : Text
  pub printed : Text

abbrev pub take_reply : Reply → Text → Vendor
take_reply (body b) vendor = record { found = true; vendor = b; printed = [] }
take_reply (exception what) vendor = record {
  found = false;
  vendor = vendor;
  printed = codes "Request failed, error: " ++ (what ++ codes "\n");
}

-- getVendor; `send` is the GET request of an address.
unfoldable pub get_vendor : (Text → Reply) → Text → Text → Vendor
get_vendor send mac vendor = take_reply (send (codes "http://api.macvendors.com/" ++ mac)) vendor

-- The members of a `struct utsname` that are used.
pub record UtsName : Type 0 where
  pub sysname : Text
  pub release : Text

-- getOsInfo of Linux over the buffer `osinfo`: `none` is a call of uname that fails.
unfoldable pub os_info_linux : Option UtsName → Bytes → Outcome Bytes
os_info_linux none osinfo = ok osinfo
os_info_linux (some details) osinfo =
    write_string osinfo (details.sysname ++ (codes " " ++ details.release))

-- What RtlGetVersion tells.
pub record OsVersion : Type 0 where
  pub major : ℕ
  pub minor : ℕ
  pub build : ℕ

-- getOsInfo of Windows: `none` is a library in which RtlGetVersion is not found.
unfoldable pub os_info_windows : Option OsVersion → Bytes → Outcome Bytes
os_info_windows none osinfo = ok osinfo
os_info_windows (some v) osinfo = write_string osinfo (
    codes "Microsoft Windows [Version "
    ++ (to_string v.major
        ++ (codes "." ++ (to_string v.minor ++ (codes "." ++ (to_string v.build ++ codes "]"))))))

-- LOGIN_NAME_MAX, and UNLEN + 1 of Windows
abbrev pub login_name_max : ℕ
login_name_max = 256

abbrev pub user_name_size : ℕ
user_name_size = 257

-- getLoginName of Linux and of Windows; getlogin_r and GetUserNameA, over a buffer and the size that
-- they are told, are parameters.
abbrev pub get_login_name : (Bytes → ℕ → Bytes) → Bytes → Bytes
get_login_name getlogin username = getlogin username login_name_max

abbrev pub get_login_name_windows : (Bytes → ℕ → Bytes) → Bytes → Bytes
get_login_name_windows get_user_name username = get_user_name username user_name_size

-- What StringToBool reads from the text of a truth value is that value: `has` finds each of the two
-- texts in itself and not the one in the other.
pub string_to_bool-bool_to_string :
    (has : Text → Text → Bool)
    → ((t : Text) → has t t ≡ true)
    → has (codes "false") (codes "true") ≡ false
    → (b : Bool) → string_to_bool has (bool_to_string b) ≡ ok b
unfolding string_to_bool bool_to_string
string_to_bool-bool_to_string has itself other true = rw (itself (codes "true"))
string_to_bool-bool_to_string has itself other false = rw (other, itself (codes "false"))

-- The text that getOsInfo prints.
abbrev pub os_text : UtsName → Text
os_text details = details.sysname ++ (codes " " ++ details.release)

-- A buffer that is longer than the text holds it after getOsInfo, as a C string, and keeps its size.
pub os_info_linux-c_string :
    (details : UtsName) (osinfo : Bytes)
    → All (λ c. c ≢ 0) (os_text details)
    → length (os_text details) < length osinfo
    → (written : Bytes) × (os_info_linux (some details) osinfo ≡ ok written)
      × (length written ≡ length osinfo)
      × (c_string written ≡ os_text details)
unfolding os_info_linux
os_info_linux-c_string details osinfo nz fits =
    let text = os_text details in
    let rest = drop (length text + 1) osinfo in
    let (e, size) = write_string_fits osinfo text fits in
    (text ++ 0 ∷ rest, e, size, c_string-append text rest nz)

-- getOsInfo overflows a buffer that is no longer than the text.
pub os_info_linux_overflows :
    (details : UtsName) (osinfo : Bytes)
    → length osinfo ≤ length (os_text details)
    → os_info_linux (some details) osinfo ≡ fault out_of_bounds
unfolding os_info_linux
os_info_linux_overflows details osinfo long = write_string_long osinfo (os_text details) long

-- What getOsInfo leaves, where uname succeeds and where it fails.
pub data Info (osinfo : Bytes) : Option UtsName → Outcome Bytes → Type 0 where
  unknown : Info osinfo none (ok osinfo)
  too_long :
      {details : UtsName}
      → length osinfo ≤ length (os_text details)
      → Info osinfo (some details) (fault out_of_bounds)
  fits :
      {details : UtsName} (written : Bytes)
      → length (os_text details) < length osinfo
      → length written ≡ length osinfo
      → c_string written ≡ os_text details
      → Info osinfo (some details) (ok written)

-- The texts of a C string have no zero.
abbrev pub LacksZero : Option UtsName → Type 0
LacksZero none = Unit
LacksZero (some details) = All (λ c. c ≢ 0) (os_text details)

-- Where the texts of uname have no zero in them: getOsInfo of Linux leaves the buffer alone if
-- uname fails, writes past it if it is no longer than the name and the release with a blank
-- between them, and otherwise leaves a buffer of the same size that holds that text as a C string.
pub os_info_linux-Info :
    (uname : Option UtsName) (osinfo : Bytes)
    → LacksZero uname
    → Info osinfo uname (os_info_linux uname osinfo)
unfolding os_info_linux
os_info_linux-Info none osinfo nz = unknown
os_info_linux-Info (some details) osinfo nz =
    elim (Bool-cases (ltb (length (os_text details)) (length osinfo))) [
      | inl short ↦
          let (written, e, size, text) =
            os_info_linux-c_string details osinfo nz (ground (arith, short)) in
          subst (Info osinfo (some details)) (sym e)
            (fits written (ground (arith, short)) size text)
      | inr long ↦
          let over : length osinfo ≤ length (os_text details) = ground (arith, long) in
          subst (Info osinfo (some details)) (sym (os_info_linux_overflows details osinfo over))
            (too_long over)
    ]
