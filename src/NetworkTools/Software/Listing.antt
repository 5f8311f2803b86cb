-- ===== src/NetworkTools/Software/Listing.antt =====
-- What the list of installed software holds.
use ot_tcp_listener.Prelude.{
  true, false, not, ◌&&◌, ◌||◌, List, [], ◌∷◌, ◌++◌, some, map, ◌≡◌, refl, ◌∙◌, ap, Text, All,
  All-append, arith, Bool-cases, inl, inr,
}
use ot_tcp_listener.Prelude.Outcome.{Outcome, ok}
use ot_tcp_listener.NetworkTools.{text_eq}
use ot_tcp_listener.NetworkTools.Clean.{
  clean_q_string, change_tr_characters, printable, remove_specials-printable,
}
use ot_tcp_listener.NetworkTools.Validate.{text_eq→≡}
use ot_tcp_listener.NetworkTools.Shell.{exec_shell-kept, kept}
use ot_tcp_listener.NetworkTools.Software.{
  has_text, is_accepted, add_software, add_all, installed_linux,
}

-- No text stands in the list twice.
abbrev pub Distinct : List Text → Type 0
Distinct [] = Unit
Distinct (s ∷ l) = (has_text l s ≡ false) × Distinct l

pub record IsListing (l : List Text) : Type 0 where
  pub distinct : Distinct l
  pub accepted : All (λ s. is_accepted s ≡ true) l

text_eq_comm : (s t : Text) → text_eq s t ≡ text_eq t s
text_eq_comm [] [] = refl
text_eq_comm [] (d ∷ t) = refl
text_eq_comm (c ∷ s) [] = refl
text_eq_comm (c ∷ s) (d ∷ t) = ground (arith, text_eq_comm s t)

text_eq_refl : (s : Text) → text_eq s s ≡ true
text_eq_refl [] = refl
text_eq_refl (c ∷ s) = ground (arith, text_eq_refl s)

has_text-append :
    (l : List Text) (s t : Text) → has_text (l ++ s ∷ []) t ≡ (has_text l t || text_eq s t)
unfolding has_text
has_text-append [] s t = ground arith
has_text-append (r ∷ l) s t = ground (arith, has_text-append l s t)

Distinct-append :
    (l : List Text) (s : Text) → Distinct l → has_text l s ≡ false → Distinct (l ++ s ∷ [])
unfolding has_text
Distinct-append [] s d h = (refl, tt)
Distinct-append (r ∷ l) s d h = (
  ground (arith, has_text-append l s r, text_eq_comm s r),
  Distinct-append l s d.1 (ground arith),
)

add_software-IsListing : (l : List Text) (s : Text) → IsListing l → IsListing (add_software l s)
add_software-IsListing l s v = elim (Bool-cases (is_accepted s && not (has_text l s))) [
  | inl added ↦ rw added (record {
    distinct = Distinct-append l s v.distinct (ground arith);
    accepted = All-append (λ s. is_accepted s ≡ true) l (s ∷ []) v.accepted (ground arith, tt);
  })
  | inr kept ↦ rw kept v
]

is_accepted-text_eq : (s t : Text) → (is_accepted s && text_eq s t) ≡ (is_accepted t && text_eq s t)
is_accepted-text_eq s t = elim (Bool-cases (text_eq s t)) [
  | inl y ↦ rw (text_eq→≡ s t y)
  | inr n ↦ ground (arith, n)
]

has_text-text_eq : (l : List Text) (s t : Text) → text_eq s t ≡ true → has_text l s ≡ has_text l t
has_text-text_eq l s t h = ap (has_text l) (text_eq→≡ s t h)

-- What is in the list once a text was added.
has_text-add_software :
    (l : List Text) (s t : Text)
    → has_text (add_software l s) t ≡ (has_text l t || (is_accepted t && text_eq s t))
has_text-add_software l s t = elim (Bool-cases (text_eq s t)) [
  | inl y ↦
      ground (arith, y, has_text-append l s t, has_text-text_eq l s t y, is_accepted-text_eq s t)
  | inr n ↦ ground (arith, n, has_text-append l s t)
]

module _ (clean : Text → Outcome Text) (cleaned : Text → Text)
    (total : (t : Text) → clean t ≡ ok (cleaned t)) where
  add_all-has_text :
      (pieces l : List Text) (t : Text)
      → IsListing l
      → (l' : List Text) × (add_all clean pieces l ≡ ok l')
        × IsListing l'
        × (has_text l' t ≡ (has_text l t || (is_accepted t && has_text (map cleaned pieces) t)))
  unfolding add_all has_text
  add_all-has_text [] l t v = (l, refl, v, ground arith)
  add_all-has_text (p ∷ pieces) l t v =
      let s = cleaned p in
      let (l', run, v', has) =
        add_all-has_text pieces (add_software l s) t (add_software-IsListing l s v) in
      (l', rw (total p) run, v', has ∙ ground (arith, has_text-add_software l s t))

clean_q_string_returns :
    (replace : Text → Text → Text → Text) (to_std_string : Text → Text) (t : Text)
    → clean_q_string replace to_std_string t
      ≡ ok (printable (to_std_string (change_tr_characters replace t)))
unfolding clean_q_string
clean_q_string_returns replace to_std_string t =
    remove_specials-printable (to_std_string (change_tr_characters replace t))

-- Whatever the script prints and the functions of QString give, getInstalledSoftware of Linux
-- returns: its list has no text twice and no text that is empty or starts with #, and it has a
-- text if and only if that text is neither and is one of the cleaned pieces of what ExecShell
-- keeps.
pub installed_linux-has_text :
    (replace : Text → Text → Text → Text) (to_std_string remove : Text → Text)
    (split : Text → List Text) (script t : Text)
    → let clean = clean_q_string replace to_std_string in
      let cleaned : Text → Text = λ p. printable (to_std_string (change_tr_characters replace p)) in
      (l : List Text) × (installed_linux clean remove split (some script) ≡ ok l)
      × IsListing l
      × (has_text l t
          ≡ (is_accepted t && has_text (map cleaned (split (remove (kept 126 false script)))) t))
unfolding installed_linux has_text
installed_linux-has_text replace to_std_string remove split script t =
    let (l, run, v, has) =
      add_all-has_text _ _ (clean_q_string_returns replace to_std_string)
        (split (remove (kept 126 false script))) [] t (record { distinct = tt; accepted = tt }) in
    (l, rw (exec_shell-kept script) run, v, has)
