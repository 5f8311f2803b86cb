-- ===== src/NetworkTools/Shell.antt =====
-- NetworkTools::ExecShell of networktools.h. popen is a parameter: what the command prints, or the
-- null pointer.
use ot_tcp_listener.Prelude.{
  ℕ, zero, suc, Bool, false, not, ◌||◌, ◌&&◌, sym, ◌≤◌, ◌<◌, [], ◌∷◌, ◌++◌, Option, none, some, ◌≡◌,
  ◌≢◌, refl, ◌∙◌, ap, Text, All, length, ◌==◌, if◌then◌else◌, arith, append_assoc, append-nil,
}
use ot_tcp_listener.Prelude.Outcome.{Outcome, ok, fault, out_of_fuel, runtime_error}
use ot_tcp_listener.Net.CString.{c_string}

-- fgets into a buffer with room for so many characters and the zero behind them: what it reads, and
-- what is left of the stream.
unfoldable pub fgets : ℕ → Text → Text × Text
fgets zero s = ([], s)
fgets (suc room) [] = ([], [])
fgets (suc room) (c ∷ s) =
    let (chunk, rest) = fgets room s in if c == b'\n' then (c ∷ [], s) else (c ∷ chunk, rest)

-- The loop; at the end of the stream fgets gives the null pointer. What is appended is the buffer
-- as a C string.
unfoldable pub shell_loop : ℕ → Text → Text → Outcome Text
shell_loop zero stream result = fault out_of_fuel
shell_loop (suc fuel) [] result = ok result
shell_loop (suc fuel) (c ∷ stream) result =
    let (chunk, rest) = fgets 127 (c ∷ stream) in
    shell_loop fuel rest (result ++ c_string (chunk ++ 0 ∷ []))

unfoldable pub exec_shell : Option Text → Outcome Text
exec_shell none = fault runtime_error
exec_shell (some stream) = shell_loop (suc (length stream)) stream []

-- What is kept of an output, by its characters: in each line, and in each block of 127 characters of
-- a longer line, what stands before the first zero. The number is that of the characters that still
-- fit into the block behind this one, the truth value whether the block has had a zero.
unfoldable pub kept : ℕ → Bool → Text → Text
kept left seen [] = []
kept zero seen (c ∷ s) = let rest = kept 126 false s in if seen || c == 0 then rest else c ∷ rest
kept (suc left) seen (c ∷ s) =
    let ends = c == b'\n' in
    let rest = kept (if ends then 126 else left) (not ends && (seen || c == 0)) s in
    if seen || c == 0 then rest else c ∷ rest

length-fgets : (room : ℕ) (s : Text) → length (fgets room s).1 ≤ length s
unfolding fgets
length-fgets zero s = omega arith
length-fgets (suc room) [] = omega arith
length-fgets (suc room) (c ∷ s) = ground (arith, length-fgets room s)

-- A call with room reads something.
fgets_reads : (room c : ℕ) (s : Text) → length (fgets (suc room) (c ∷ s)).1 ≤ length s
unfolding fgets
fgets_reads room c s = ground (arith, length-fgets room s)

-- What is kept of the rest of a block, and behind it.
kept-fgets :
    (left : ℕ) (seen : Bool) (s : Text)
    → let (chunk, rest) = fgets (suc left) s in
      kept left seen s ≡ (if seen then [] else c_string (chunk ++ 0 ∷ [])) ++ kept 126 false rest
unfolding kept fgets c_string
kept-fgets left seen [] = ground arith
kept-fgets zero seen (c ∷ s) = ground arith
kept-fgets (suc left) seen (c ∷ s) = ground (arith, kept-fgets left (seen || c == 0) s)

shell_loop-kept :
    (fuel : ℕ) (stream result : Text)
    → length stream < fuel
    → shell_loop fuel stream result ≡ ok (result ++ kept 126 false stream)
unfolding shell_loop
shell_loop-kept zero stream result h = absurd (omega arith)
shell_loop-kept (suc fuel) [] result h = unfold kept in rw (append-nil result)
shell_loop-kept (suc fuel) (c ∷ stream) result h =
    let (chunk, rest) = fgets 127 (c ∷ stream) in
    let next =
      shell_loop-kept fuel rest (result ++ c_string (chunk ++ 0 ∷ []))
        (omega (arith, fgets_reads 126 c stream)) in
    next
    ∙ ap ok (
        append_assoc result (c_string (chunk ++ 0 ∷ [])) (kept 126 false rest)
        ∙ ap (λ t. result ++ t) (sym (kept-fgets 126 false (c ∷ stream))))

-- Whatever a command prints, ExecShell returns it but for what stands from a zero on in the same
-- line, its end included, or in the same block of 127 characters of a longer line.
pub exec_shell-kept : (stream : Text) → exec_shell (some stream) ≡ ok (kept 126 false stream)
unfolding exec_shell
exec_shell-kept stream = shell_loop-kept (suc (length stream)) stream [] (omega arith)

kept-nonzero : (left : ℕ) (s : Text) → All (λ c. c ≢ 0) s → kept left false s ≡ s
unfolding kept
kept-nonzero left [] h = refl
kept-nonzero zero (c ∷ s) h = ground (arith, h.0, kept-nonzero 126 s h.1)
kept-nonzero (suc left) (c ∷ s) h =
    ground (arith, h.0, kept-nonzero (if c == b'\n' then 126 else left) s h.1)

-- ExecShell returns the whole output of a command that prints no zero, though fgets cuts it into
-- lines and blocks of 127 characters.
pub exec_shell_whole :
    (stream : Text) → All (λ c. c ≢ 0) stream → exec_shell (some stream) ≡ ok stream
exec_shell_whole stream nz = exec_shell-kept stream ∙ ap ok (kept-nonzero 126 stream nz)
