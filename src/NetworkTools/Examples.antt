-- ===== src/NetworkTools/Examples.antt =====
-- Runs of the helpers of networktools.h, and the theorems at concrete texts.
use ot_tcp_listener.Prelude.{
  ◌-◌, ◌*◌, ◌^◌, ◌+◌, ◌%◌, false, [], ◌∷◌, Option, some, ◌≡◌, refl, Text, codes, arith,
  if◌then◌else◌,
}
use ot_tcp_listener.Prelude.Outcome.{ok, fault, out_of_range, invalid_argument}
use ot_tcp_listener.Net.{Ip, inet_ntoa}
use ot_tcp_listener.Net.Stoi.{stoi}
use ot_tcp_listener.NetworkTools.{
  index_of, find, substr, split_loop, split, shift_int, is_number_char, is_number, text_eq,
  check_tokens, validate_ip, get_ip_from_int, get_int_from_ip,
}
use ot_tcp_listener.NetworkTools.Split.{pieces, split-pieces}
use ot_tcp_listener.NetworkTools.Answer.{Answer, validate_ip-Answer}
use ot_tcp_listener.NetworkTools.Tokens.{sum_tokens, get_int_from_ip-split}
use ot_tcp_listener.NetworkTools.Address.{mask24}
use ot_tcp_listener.Net.CString.{c_string}
use ot_tcp_listener.NetworkTools.Clean.{
  erase_at, specials_loop, remove_specials, printable, remove_specials-printable,
}
use ot_tcp_listener.NetworkTools.Device.{visit_entries, visit_interfaces, get_device_info, taken}
use ot_tcp_listener.NetworkTools.DeviceSample.{has, lo, eth0_entry, eth0, nothing_found}
use ot_tcp_listener.NetworkTools.Convert.{
  octets, get_ip_from_int-inet_ntoa, get_int_from_ip-get_ip_from_int,
}

abbrev host : Ip
host = record { a = 192; b = 168; c = 1; d = 77 }

split_run : split (codes "10..5") b'.' ≡ codes "10" ∷ [] ∷ codes "5" ∷ []
unfolding split split_loop find index_of substr
split_run = refl

validate_too_large : validate_ip (codes "10.0.0.256") ≡ ok false
unfolding validate_ip split split_loop find index_of substr check_tokens is_number is_number_char
    stoi
validate_too_large = refl

validate_throws : validate_ip (codes "10.0.0.99999999999") ≡ fault out_of_range
unfolding validate_ip split split_loop find index_of substr check_tokens is_number is_number_char
    stoi
validate_throws = refl

split-pieces_example : split (codes "a.b") b'.' ≡ pieces b'.' (codes "a.b")
split-pieces_example = split-pieces (codes "a.b") b'.'

validate_ip-Answer_example : Answer (codes "10.0.[1.7") (fault invalid_argument)
unfolding validate_ip split split_loop find index_of substr check_tokens is_number is_number_char
    stoi
validate_ip-Answer_example = validate_ip-Answer (codes "10.0.[1.7")

get_int_from_ip-split_example :
    get_int_from_ip (codes "10.0.300.5") ≡ ok (10 * 2 ^ 24 + 300 * 2 ^ 8)
unfolding sum_tokens split split_loop find index_of substr stoi shift_int
get_int_from_ip-split_example = get_int_from_ip-split (codes "10.0.300.5")

get_ip_from_int-inet_ntoa_example : get_ip_from_int 0x0a000005 ≡ inet_ntoa (octets 0x0a000005)
get_ip_from_int-inet_ntoa_example = get_ip_from_int-inet_ntoa 0x0a000005

get_int_from_ip-get_ip_from_int_example :
    get_int_from_ip (get_ip_from_int 0x0a000005) ≡ ok (0x0a000005 - 0x0a000005 % 256)
get_int_from_ip-get_ip_from_int_example = get_int_from_ip-get_ip_from_int 0x0a000005 (omega arith)

-- A stand-in for inet_pton that knows one mask and one address.
abbrev pton : Text → Option Ip
pton t = if text_eq t (codes "255.255.255.0") then some mask24 else some host

remove_specials_run : remove_specials (0x61 ∷ 9 ∷ 0 ∷ 0xc3 ∷ 0x62 ∷ []) ≡ ok (codes "ab")
unfolding remove_specials specials_loop erase_at c_string
remove_specials_run = refl

remove_specials-printable_example :
    remove_specials (0x61 ∷ 9 ∷ 0x62 ∷ []) ≡ ok (printable (0x61 ∷ 9 ∷ 0x62 ∷ []))
remove_specials-printable_example = remove_specials-printable (0x61 ∷ 9 ∷ 0x62 ∷ [])

-- A replacement that changes nothing.
abbrev keep_text : Text → Text → Text → Text
keep_text text before after = text

get_device_info_run : get_device_info has (lo ∷ eth0 ∷ []) nothing_found ≡ taken has eth0 eth0_entry
unfolding get_device_info visit_interfaces visit_entries has
get_device_info_run = refl
