-- ===== src/NetworkTools/Split.antt =====
-- The function `split` of networktools.h.
use mathlib.Core.Option
use ot_tcp_listener.Prelude.{
  ℕ, zero, suc, ◌+◌, ◌-◌, ◌≤◌, ◌<◌, Bool, true, false, List, [], ◌∷◌, ◌++◌, Option, none, some, ◌≡◌,
  ◌≢◌, refl, sym, ◌∙◌, ap, inl, inr, Text, All, length, take, drop, ◌==◌, if◌then◌else◌, arith,
  append_assoc, length-drop, Bool-cases, ne→==, eq→==,
}
use ot_tcp_listener.NetworkTools.{index_of, find, substr, split_loop, split}

-- The pieces of a text between the delimiters, by recursion on the text.
abbrev onto : ℕ → List Text → List Text
onto c [] = (c ∷ []) ∷ []
onto c (p ∷ ps) = (c ∷ p) ∷ ps

unfoldable pub pieces : ℕ → Text → List Text
pieces d [] = [] ∷ []
pieces d (c ∷ s) = let rest = pieces d s in if c == d then [] ∷ rest else onto c rest

-- The pieces with a delimiter between them.
unfoldable pub glue : ℕ → List Text → Text
glue d [] = []
glue d (p ∷ []) = p
glue d (p ∷ q ∷ ps) = p ++ (d ∷ glue d (q ∷ ps))

abbrev pub Lacks : ℕ → Text → Type 0
Lacks d = All (λ c. c ≢ d)

take_all : (n : ℕ) (s : Text) → length s ≤ n → take n s ≡ s
take_all zero [] h = refl
take_all zero (c ∷ s) h = absurd (omega arith)
take_all (suc n) [] h = refl
take_all (suc n) (c ∷ s) h = ap (◌∷◌ c) (take_all n s (omega arith))

drop_nil : (n : ℕ) → drop {A = ℕ} n [] ≡ []
drop_nil zero = refl
drop_nil (suc n) = refl

drop-drop : (m n : ℕ) (s : Text) → drop n (drop m s) ≡ drop (m + n) s
drop-drop zero n s = ap (λ k. drop k s) (omega arith)
drop-drop (suc m) n [] = drop_nil n ∙ sym (drop_nil (suc m + n))
drop-drop (suc m) n (c ∷ s) =
    let e : suc m + n ≡ suc (m + n) = omega arith in rw e (drop-drop m n s)

-- Where the first delimiter is, and what the pieces are by it.
abbrev pub FirstAt : ℕ → Text → Option ℕ → Type 0
FirstAt d s none = pieces d s ≡ s ∷ []
FirstAt d s (some k) = (k < length s) × (pieces d s ≡ take k s ∷ pieces d (drop (k + 1) s))

FirstAt-later :
    (d c : ℕ) (s : Text) (o : Option ℕ)
    → (c == d) ≡ false
    → FirstAt d s o
    → FirstAt d (c ∷ s) (Option.map suc o)
unfolding pieces
FirstAt-later d c s none miss h = rw (miss, h)
FirstAt-later d c s (some k) miss (lt, h) =
    let e : suc k + 1 ≡ suc (k + 1) = omega arith in (omega arith, rw (miss, h, e))

pub first_at : (d : ℕ) (s : Text) → FirstAt d s (index_of d s)
unfolding index_of pieces
first_at d [] = refl
first_at d (c ∷ s) = elim (Bool-cases (c == d)) [
  | inl hit ↦ rw hit (omega arith, unfold pieces in rw hit)
  | inr miss ↦ rw miss (FirstAt-later d c s (index_of d s) miss (first_at d s))
]

-- One round of the loop, `rest` being the statement about the rounds that follow.
split_round :
    (fuel : ℕ) (s : Text) (d i : ℕ) (list : List Text) (o : Option ℕ)
    → i ≤ length s
    → FirstAt d (drop i s) o
    → ((j : ℕ) (l : List Text)
        → i < j
        → j ≤ length s
        → split_loop fuel s d j (find s d j) l ≡ l ++ pieces d (drop j s))
    → split_loop (suc fuel) s d i (Option.map (λ k. i + k) o) list ≡ list ++ pieces d (drop i s)
unfolding split_loop substr
split_round fuel s d i list none h first rest =
    rw (first, take_all (length s) (drop i s) (omega (arith, length-drop i s)))
split_round fuel s d i list (some k) h (lt, first) rest =
    let size : i + k - i ≡ k = omega arith in
    let next =
      rest (i + k + 1) (list ++ take k (drop i s) ∷ []) (omega arith)
        (omega (arith, length-drop i s)) in
    let e : i + (k + 1) ≡ i + k + 1 = omega arith in
    rw (size, next, first, drop-drop i (k + 1) s, e)
      (append_assoc list (take k (drop i s) ∷ []) (pieces d (drop (i + k + 1) s)))

split_loop-pieces :
    (fuel : ℕ) (s : Text) (d i : ℕ) (list : List Text)
    → i ≤ length s
    → length s < fuel + i
    → split_loop fuel s d i (find s d i) list ≡ list ++ pieces d (drop i s)
unfolding find
split_loop-pieces zero s d i list h enough = absurd (omega arith)
split_loop-pieces (suc fuel) s d i list h enough =
    split_round fuel s d i list (index_of d (drop i s)) h (first_at d (drop i s))
      λ j l lt le. split_loop-pieces fuel s d j l le (omega arith)

-- For every text and delimiter the loop of split, which goes by positions, gives the pieces
-- between the delimiters as defined by recursion on the text.
pub split-pieces : (s : Text) (d : ℕ) → split s d ≡ pieces d s
unfolding split
split-pieces s d = split_loop-pieces (suc (length s)) s d 0 [] (omega arith) (omega arith)

glue-onto : (d c : ℕ) (ps : List Text) → ps ≢ [] → glue d (onto c ps) ≡ c ∷ glue d ps
unfolding glue
glue-onto d c [] h = absurd (h refl)
glue-onto d c (p ∷ []) h = refl
glue-onto d c (p ∷ q ∷ ps) h = refl

onto-ne-nil : (c : ℕ) (b : Bool) (ps : List Text) → (if b then [] ∷ ps else onto c ps) ≢ []
onto-ne-nil c true ps = cc
onto-ne-nil c false [] = cc
onto-ne-nil c false (p ∷ ps) = cc

pub pieces-ne-nil : (d : ℕ) (s : Text) → pieces d s ≢ []
unfolding pieces
pieces-ne-nil d [] = cc
pieces-ne-nil d (c ∷ s) = onto-ne-nil c (c == d) (pieces d s)

glue_delimiter : (d : ℕ) (ps : List Text) → ps ≢ [] → glue d ([] ∷ ps) ≡ d ∷ glue d ps
unfolding glue
glue_delimiter d [] h = absurd (h refl)
glue_delimiter d (p ∷ ps) h = refl

glue-pieces : (d : ℕ) (t : Text) → glue d (pieces d t) ≡ t
unfolding pieces
glue-pieces d [] = unfold glue in refl
glue-pieces d (c ∷ t) = elim (Bool-cases (c == d)) [
  | inl hit ↦
      let same : c ≡ d = ground arith in
      rw (hit, glue_delimiter d (pieces d t) (pieces-ne-nil d t), glue-pieces d t, same)
  | inr miss ↦ rw (miss, glue-onto d c (pieces d t) (pieces-ne-nil d t), glue-pieces d t)
]

-- Putting the delimiter back between the tokens of split gives the text.
pub glue-split : (s : Text) (d : ℕ) → glue d (split s d) ≡ s
glue-split s d = rw (split-pieces s d) (glue-pieces d s)

pub pieces-Lacks : (d : ℕ) (s : Text) → Lacks d s → pieces d s ≡ s ∷ []
unfolding pieces
pieces-Lacks d [] h = refl
pieces-Lacks d (c ∷ s) h = rw (ne→== c d h.0, pieces-Lacks d s h.1)

-- The first token ends at the first delimiter.
pub pieces_delimiter :
    (d : ℕ) (s rest : Text) → Lacks d s → pieces d (s ++ d ∷ rest) ≡ s ∷ pieces d rest
unfolding pieces
pieces_delimiter d [] rest h = rw (eq→== d d refl)
pieces_delimiter d (c ∷ s) rest h = rw (ne→== c d h.0, pieces_delimiter d s rest h.1)
