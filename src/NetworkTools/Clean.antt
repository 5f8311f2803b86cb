-- ===== src/NetworkTools/Clean.antt =====
-- RemoveSpecials, changeTrCharacters and cleanQString of networktools.h. QString::replace and
-- toStdString are parameters; the result is the bytes that the returned QString is made of.
use ot_tcp_listener.Prelude.{
  ℕ, zero, suc, ◌+◌, ◌-◌, ◌<◌, Bool, true, false, ◌&&◌, List, [], ◌∷◌, ◌++◌, ◌≡◌, refl, ◌∙◌, ap,
  inl, inr, Text, codes, All, length, ltb, leb, if◌then◌else◌, arith, append_assoc, length-append,
  Bool-cases, get_elem?, some, get_elem?-append_at, lt→ltb, le→ltb_false,
}
use ot_tcp_listener.Net.CString.{c_string}
use ot_tcp_listener.Prelude.Outcome.{Outcome, ok, fault, out_of_fuel, ◌>>=◌, read}

-- isprint, in the C locale
abbrev pub is_print : ℕ → Bool
is_print c = leb 32 c && leb c 126

-- std::string::erase(i, 1)
unfoldable pub erase_at : ℕ → Text → Text
erase_at i [] = []
erase_at zero (c ∷ s) = s
erase_at (suc i) (c ∷ s) = c ∷ erase_at i s

-- The loop over `i`, `len` and `str`; each round shortens what is left.
unfoldable pub specials_loop : ℕ → ℕ → ℕ → Text → Outcome Text
specials_loop zero i len str = fault out_of_fuel
specials_loop (suc fuel) i len str = elim (ltb i len) [
  | true ↦ do
    c ← read str i
    elim (is_print c) [
      | true ↦ specials_loop fuel (i + 1) len str
      | false ↦ specials_loop fuel i (len - 1) (erase_at i str)
    ]
  | false ↦ ok str
]

unfoldable pub remove_specials : Text → Outcome Text
remove_specials qstr = do
  str ← specials_loop (suc (length qstr)) 0 (length qstr) qstr
  ok (c_string str)

module _ (replace : Text → Text → Text → Text) where
  abbrev replace_all : List (Text × Text) → Text → Text
  replace_all [] text = text
  replace_all ((before, after) ∷ more) text = replace_all more (replace text before after)

  unfoldable pub change_tr_characters : Text → Text
  change_tr_characters = replace_all (
      (codes "ö", codes "o")
      ∷ (codes "Ö", codes "O")
      ∷ (codes "ü", codes "u")
      ∷ (codes "Ü", codes "U")
      ∷ (codes "ı", codes "i")
      ∷ (codes "İ", codes "I")
      ∷ (codes "ğ", codes "g")
      ∷ (codes "Ğ", codes "G")
      ∷ (codes "ş", codes "s")
      ∷ (codes "Ş", codes "S")
      ∷ (codes "ç", codes "c")
      ∷ (codes "Ç", codes "C")
      ∷ [])

  unfoldable pub clean_q_string : (Text → Text) → Text → Outcome Text
  clean_q_string to_std_string to_clean =
      remove_specials (to_std_string (change_tr_characters to_clean))

-- The bytes that are printable.
unfoldable pub printable : Text → Text
printable [] = []
printable (c ∷ s) = let rest = printable s in if is_print c then c ∷ rest else rest

erase_at-append :
    (front : Text) (c : ℕ) (s : Text) → erase_at (length front) (front ++ c ∷ s) ≡ front ++ s
unfolding erase_at
erase_at-append [] c s = refl
erase_at-append (d ∷ front) c s = ap (◌∷◌ d) (erase_at-append front c s)

-- What a round of the loop does at the first byte that is left.
round_at :
    (fuel i len c : ℕ) (str : Text)
    → i < len
    → get_elem? str i ≡ some c
    → specials_loop (suc fuel) i len str ≡ (
        if is_print c
        then specials_loop fuel (i + 1) len str
        else specials_loop fuel i (len - 1) (erase_at i str))
unfolding specials_loop
round_at fuel i len c str h e = rw (specials_loop, lt→ltb i len h, e) (by_print (is_print c))
  where
    by_print :
        (b : Bool)
        → elim b [
          | true ↦ specials_loop fuel (i + 1) len str
          | false ↦ specials_loop fuel i (len - 1) (erase_at i str)
        ]
          ≡ (if b
              then specials_loop fuel (i + 1) len str
              else specials_loop fuel i (len - 1) (erase_at i str))
    by_print true = refl
    by_print false = refl

loop-printable :
    (s front : Text) (fuel len : ℕ)
    → length s < fuel
    → len ≡ length front + length s
    → specials_loop fuel (length front) len (front ++ s) ≡ ok (front ++ printable s)
unfolding printable specials_loop
loop-printable s front zero len h e = absurd (omega arith)
loop-printable [] front (suc fuel) len h e =
    rw (specials_loop, le→ltb_false (length front) len (omega arith))
loop-printable (c ∷ s) front (suc fuel) len h e =
    let here : get_elem? (front ++ c ∷ s) (length front) ≡ some c =
      get_elem?-append_at front (c ∷ s) (length front) 0 (omega arith) in
    round_at fuel (length front) len c (front ++ c ∷ s) (omega arith) here
    ∙ elim (Bool-cases (is_print c)) [
      | inl hit ↦
          let size = length-append front (c ∷ []) in
          let next =
            loop-printable s (front ++ c ∷ []) fuel len (omega arith) (omega (arith, size)) in
          rw hit (
            rw (size, append_assoc front (c ∷ []) s, append_assoc front (c ∷ []) (printable s)) at
              next)
      | inr miss ↦
          rw (miss, erase_at-append front c s)
            (loop-printable s front fuel (len - 1) (omega arith) (omega arith))
    ]

c_string-printable : (s : Text) → c_string (printable s) ≡ printable s
unfolding c_string printable
c_string-printable [] = refl
c_string-printable (c ∷ s) = ground (arith, c_string-printable s)

-- The loop of RemoveSpecials, which erases by positions, gives for every text its printable
-- characters in their order.
pub remove_specials-printable : (s : Text) → remove_specials s ≡ ok (printable s)
unfolding remove_specials
remove_specials-printable s = rw (
  loop-printable s [] (suc (length s)) (length s) (omega arith) (omega arith),
  c_string-printable s,
)

printable-All : (s : Text) → All (λ c. is_print c ≡ true) (printable s)
unfolding printable
printable-All [] = tt
printable-All (c ∷ s) = elim (Bool-cases (is_print c)) [
  | inl hit ↦ rw hit (hit, printable-All s)
  | inr miss ↦ rw miss (printable-All s)
]

-- cleanQString returns for every text, whatever QString::replace and toStdString give, and every
-- byte of its result is printable.
pub clean_q_string-All :
    (replace : Text → Text → Text → Text) (to_std_string : Text → Text) (text : Text)
    → (clean : Text) × (clean_q_string replace to_std_string text ≡ ok clean)
      × All (λ c. is_print c ≡ true) clean
unfolding clean_q_string
clean_q_string-All replace to_std_string text =
    let str = to_std_string (change_tr_characters replace text) in
    (printable str, remove_specials-printable str, printable-All str)
