-- ===== src/Service/LogPath.antt =====
-- The path of the log file, as the constructor of OtService makes it. QString::replace and
-- serviceFolder of QtService are parameters.
use ot_tcp_listener.Prelude.{
  ℕ, suc, Bool, true, false, ◌||◌, [], ◌∷◌, ◌++◌, Option, none, some, ◌≡◌, ◌≢◌, refl, Text, codes,
  All, length, take, ◌==◌, if◌then◌else◌, take-length_append,
}
use ot_tcp_listener.Net.CString.{c_string, c_string-nonzero}

abbrev pub is_separator : ℕ → Bool
is_separator c = c == b'\\' || c == b'/'

-- std::string::find_last_of, once the rest of the text is searched
abbrev pub later : Bool → Option ℕ → Option ℕ
later here (some k) = some (suc k)
later here none = if here then some 0 else none

unfoldable pub find_last_separator : Text → Option ℕ
find_last_separator [] = none
find_last_separator (c ∷ s) = later (is_separator c) (find_last_separator s)

-- `f.substr(0, …)`, where npos is the whole text
abbrev pub front : Text → Option ℕ → Text
front f none = f
front f (some k) = take k f

unfoldable pub log_file_name : (Text → Text → Text → Text) → Text → Text
log_file_name replace service_folder =
    let f = replace service_folder (codes "\\") (codes "/") in
    c_string (front f (find_last_separator f)) ++ codes "/ot_log.txt"

no_separator :
    (name : Text) → All (λ c. is_separator c ≡ false) name → find_last_separator name ≡ none
unfolding find_last_separator
no_separator [] h = refl
no_separator (c ∷ name) h = rw (no_separator name h.1, h.0)

last-separator :
    (dir name : Text) (c : ℕ)
    → is_separator c ≡ true
    → All (λ c. is_separator c ≡ false) name
    → find_last_separator (dir ++ c ∷ name) ≡ some (length dir)
unfolding find_last_separator
last-separator [] name c s h = rw (no_separator name h, s)
last-separator (d ∷ dir) name c s h = rw (last-separator dir name c s h)

-- Where the replaced service folder is a folder with no zero in it, a separator, and a name with
-- no separator, the log file is ot_log.txt in that folder.
pub log_file_name-append :
    (replace : Text → Text → Text → Text) (service_folder dir name : Text) (c : ℕ)
    → replace service_folder (codes "\\") (codes "/") ≡ dir ++ c ∷ name
    → is_separator c ≡ true
    → All (λ c. is_separator c ≡ false) name
    → All (λ c. c ≢ 0) dir
    → log_file_name replace service_folder ≡ dir ++ codes "/ot_log.txt"
unfolding log_file_name
log_file_name-append replace service_folder dir name c e s h z =
    rw (e, last-separator dir name c s h, take-length_append dir (c ∷ name), c_string-nonzero dir z)
