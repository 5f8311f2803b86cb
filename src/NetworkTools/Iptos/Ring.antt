-- ===== src/NetworkTools/Iptos/Ring.antt =====
-- The buffers of NetworkTools::iptos as a ring: no write leaves a buffer, and how long a text lasts.
use ot_tcp_listener.Prelude.{
  ℕ, zero, suc, ◌+◌, ◌%◌, ◌<◌, List, [], ◌∷◌, ◌++◌, some, ◌≡◌, ◌≢◌, refl, ◌∙◌, ap, Bytes, Text, All,
  length, get_elem?, get_elem?-some, ◌==◌, if◌then◌else◌, arith, drop,
}
use mathlib.Core.Path.{subst}
use ot_tcp_listener.Prelude.Outcome.{Outcome, ok, ◌>>=◌}
use ot_tcp_listener.Net.{inet_ntoa}
use ot_tcp_listener.Net.Ntoa.{NonZero, inet_ntoa-NonZero, length-inet_ntoa}
use ot_tcp_listener.Net.CString.{c_string-append, write_string_fits}
use ot_tcp_listener.NetworkTools.Iptos.{
  iptos_buffers, buffer_size, Iptos, set, address_bytes, iptos, text_of, text_at, IsValid,
}

abbrev HasBufferSize : Bytes → Type 0
HasBufferSize buffer = length buffer ≡ buffer_size

module _ {ℓ} {A : Type ℓ} where
  length-set : (xs : List A) (i : ℕ) (v : A) → length (set xs i v) ≡ length xs
  length-set [] i v = refl
  length-set (x ∷ xs) zero v = refl
  length-set (x ∷ xs) (suc i) v = ap suc (length-set xs i v)

  get_elem?-set_self :
      (xs : List A) (i : ℕ) (v : A) → i < length xs → get_elem? (set xs i v) i ≡ some v
  get_elem?-set_self [] i v h = absurd (omega arith)
  get_elem?-set_self (x ∷ xs) zero v h = refl
  get_elem?-set_self (x ∷ xs) (suc i) v h = get_elem?-set_self xs i v (omega arith)

  get_elem?-set_ne :
      (xs : List A) (i k : ℕ) (v : A) → k ≢ i → get_elem? (set xs i v) k ≡ get_elem? xs k
  get_elem?-set_ne [] i k v h = refl
  get_elem?-set_ne (x ∷ xs) zero zero v h = absurd (h refl)
  get_elem?-set_ne (x ∷ xs) zero (suc k) v h = refl
  get_elem?-set_ne (x ∷ xs) (suc i) zero v h = refl
  get_elem?-set_ne (x ∷ xs) (suc i) (suc k) v h = get_elem?-set_ne xs i k v (λ e. h (ap suc e))

  All-set {κ} : (P : A → Type κ) (xs : List A) (i : ℕ) (v : A) → All P xs → P v → All P (set xs i v)
  All-set P [] i v h p = h
  All-set P (x ∷ xs) zero v h p = (p, h.1)
  All-set P (x ∷ xs) (suc i) v h p = (h.0, All-set P xs i v h.1 p)

  All-get_elem? {κ} :
      (P : A → Type κ) (xs : List A) (i : ℕ) (x : A) → All P xs → get_elem? xs i ≡ some x → P x
  All-get_elem? P [] i x h e = cc
  All-get_elem? P (y ∷ xs) zero x h e = subst P (cc) h.0
  All-get_elem? P (y ∷ xs) (suc i) x h e = All-get_elem? P xs i x h.1 e

length-address : (n : ℕ) → length (inet_ntoa (address_bytes n)) < buffer_size
unfolding inet_ntoa address_bytes
length-address n =
    let short =
      length-inet_ntoa (address_bytes n) (omega arith) (omega arith) (omega arith) (omega arith) in
    omega (arith, short)

-- The buffer that the next call takes.
abbrev pub next_buffer : Iptos → ℕ
next_buffer s = (s.which + 1) % iptos_buffers

goes_round :
    (w : ℕ)
    → w < iptos_buffers
    → (if w + 1 == iptos_buffers then 0 else w + 1) ≡ (w + 1) % iptos_buffers
goes_round w h = ground arith

-- The variables after a call that takes buffer `k`, which holds `buffer`.
abbrev after : Iptos → ℕ → Bytes → Text → Iptos
after s k buffer text = record {
  output = set s.output k (text ++ 0 ∷ drop (length text + 1) buffer);
  which = k;
}

text_at_self :
    (s : Iptos) (k : ℕ) (buffer : Bytes) (text : Text)
    → k < length s.output
    → All NonZero text
    → text_at (after s k buffer text) k ≡ some text
text_at_self s k buffer text h nonzero =
    ap text_of (get_elem?-set_self s.output k (text ++ 0 ∷ drop (length text + 1) buffer) h)
    ∙ ap some (c_string-append text (drop (length text + 1) buffer) nonzero)

-- A call from valid variables: what it gives, and what is behind the other pointers.
iptos_call :
    (n : ℕ) (s : Iptos)
    → IsValid s
    → (s' : Iptos) × (iptos n s ≡ ok (next_buffer s, s'))
      × IsValid s'
      × (s'.which ≡ next_buffer s)
      × (text_at s' (next_buffer s) ≡ some (inet_ntoa (address_bytes n)))
      × ((k : ℕ) → k ≢ next_buffer s → text_at s' k ≡ text_at s k)
unfolding iptos
iptos_call n s v =
    let k = next_buffer s in
    let text = inet_ntoa (address_bytes n) in
    let (buffer, found) = get_elem?-some s.output k (omega (arith, v.buffers)) in
    let size : length buffer ≡ buffer_size =
      All-get_elem? HasBufferSize s.output k buffer v.sizes found in
    let (written, same) = write_string_fits buffer text (omega (arith, length-address n, size)) in
    let v' : IsValid (after s k buffer text) = record {
      buffers = length-set s.output k _ ∙ v.buffers;
      sizes = All-set HasBufferSize s.output k _ v.sizes (same ∙ size);
      which_in = omega arith;
    } in
    (
      after s k buffer text,
      rw (goes_round s.which v.which_in, found, written),
      v',
      refl,
      text_at_self s k buffer text (omega (arith, v.buffers)) (inet_ntoa-NonZero (address_bytes n)),
      λ j ne.
          ap text_of (get_elem?-set_ne s.output k j (text ++ 0 ∷ drop (length text + 1) buffer) ne),
    )

-- From variables of the declared shape every call of iptos returns and leaves the shape: no text
-- is longer than its buffer, the index stays below 12 and goes round, the pointer that is returned
-- holds the address, and every other one what it held.
pub iptos-IsValid :
    (n k : ℕ) (s : Iptos)
    → IsValid s
    → (s' : Iptos) × (iptos n s ≡ ok (next_buffer s, s'))
      × IsValid s'
      × (s'.which ≡ next_buffer s)
      × (text_at s' k
          ≡ (if k == next_buffer s then some (inet_ntoa (address_bytes n)) else text_at s k))
iptos-IsValid n k s v =
    let (s', called, v', which, taken, others) = iptos_call n s v in
    (s', called, v', which, ground (arith, taken, others k))

-- Calls in their order.
abbrev pub iptos_all : List ℕ → Iptos → Outcome Iptos
iptos_all [] s = ok s
iptos_all (n ∷ ns) s = do (k, s') ← iptos n s; iptos_all ns s'

-- A buffer that was taken `age` calls ago.
kept_for :
    (ns : List ℕ) (s : Iptos) (k age : ℕ)
    → IsValid s
    → k < iptos_buffers
    → (k + age) % iptos_buffers ≡ s.which
    → age + length ns < iptos_buffers
    → (s' : Iptos) × (iptos_all ns s ≡ ok s') × IsValid s' × (text_at s' k ≡ text_at s k)
kept_for [] s k age v small e h = (s, refl, v, refl)
kept_for (n ∷ ns) s k age v small e h =
    let (s1, called, v1, which, taken, others) = iptos_call n s v in
    let (s2, more, v2, same) =
      kept_for ns s1 k (age + 1) v1 small (omega (arith, which, v.which_in)) (omega arith) in
    (s2, rw called more, v2, same ∙ others k (λ bad. omega (arith, v.which_in, bad)))

-- From variables of the declared shape: the text that a call of iptos returns is still behind its
-- pointer after fewer than 12 further calls.
pub iptos_all-text_at :
    (n : ℕ) (ns : List ℕ) (s : Iptos)
    → IsValid s
    → length ns < iptos_buffers
    → (s' : Iptos) × (iptos_all (n ∷ ns) s ≡ ok s')
      × IsValid s'
      × (text_at s' (next_buffer s) ≡ some (inet_ntoa (address_bytes n)))
iptos_all-text_at n ns s v h =
    let (s1, called, v1, which, taken, others) = iptos_call n s v in
    let (s2, more, v2, same) =
      kept_for ns s1 (next_buffer s) 0 v1 (omega arith) (omega (arith, which)) (omega arith) in
    (s2, rw called more, v2, same ∙ taken)
