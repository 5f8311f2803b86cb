-- ===== src/Service/Waits.antt =====
-- OtListener::stop with its waits: it tells one adapter after the other and waits for each, and the
-- threads go on in these waits, where `stop` of the service sets all flags at once.
pub mod Atomic
use ot_tcp_listener.Prelude.{
  ℕ, zero, suc, ◌+◌, List, [], ◌∷◌, ◌++◌, map, ◌≡◌, refl, sym, ◌∙◌, ap, All, All-append, arith,
  length, replicate, append_assoc, append-nil, length-append,
}
use ot_tcp_listener.Service.{
  SnifferThread, step_thread, adapter_stop_loop, QThread, OtService, listener_stop, step_at, Event,
  starts, pauses, resumes, stops, initial, steps, cleared_steps, step, run,
}
use ot_tcp_listener.Service.Lifecycle.{
  polled, polled-run, IsStopped, AllStopped, ClearedStopped, NoStart, run-ClearedStopped,
  map_stop_loop-IsStopped,
}
use ot_tcp_listener.Service.Trace.{step_at-append}
use ot_tcp_listener.Service.Invariant.{length-map}

-- Some steps of a thread, and of the threads of a list by their places; those that the numbers leave
-- out make none.
unfoldable pub advance : ℕ → SnifferThread → SnifferThread
advance zero t = t
advance (suc n) t = advance n (step_thread t)

abbrev pub advance_all : List ℕ → List SnifferThread → List SnifferThread
advance_all [] ts = ts
advance_all (n ∷ ns) [] = []
advance_all (n ∷ ns) (t ∷ ts) = advance n t ∷ advance_all ns ts

-- The steps in the wait for an adapter: of the threads that were told to stop before, of its own
-- thread, and of the threads that are told later.
pub record Wait : Type 0 where
  pub earlier : List ℕ
  pub own : ℕ
  pub later : List ℕ

-- The loop of OtListener::stop over the adapters, with the threads that are told already. Where the
-- list of waits has ended no thread makes a step.
unfoldable pub stop_each : List SnifferThread → List Wait → List SnifferThread → List SnifferThread
stop_each told [] ts = told ++ map adapter_stop_loop ts
stop_each told (w ∷ waits) [] = told
stop_each told (w ∷ waits) (t ∷ ts) =
    stop_each (advance_all w.earlier told ++ advance w.own (adapter_stop_loop t) ∷ []) waits
      (advance_all w.later ts)

unfoldable pub stop_waiting : List Wait → OtService → OtService
stop_waiting waits s = record s {
  adapter_list = [];
  cleared = stop_each s.cleared waits s.adapter_list;
}

-- OtListener::setPause(true) is the same loop, over adapters that stay on the list. The steps of
-- those that were cleared from it before are no part of it here.
unfoldable pub pause_waiting : List Wait → OtService → OtService
pause_waiting waits s = record s { adapter_list = stop_each [] waits s.adapter_list }

-- Steps after steps.
abbrev add : List ℕ → List ℕ → List ℕ
add [] ms = ms
add (n ∷ ns) [] = n ∷ ns
add (n ∷ ns) (m ∷ ms) = (n + m) ∷ add ns ms

advance-add : (n m : ℕ) (t : SnifferThread) → advance m (advance n t) ≡ advance (n + m) t
unfolding advance
advance-add zero m t = let e : 0 + m ≡ m = omega arith in rw e
advance-add (suc n) m t =
    let e : suc n + m ≡ suc (n + m) = omega arith in rw e (advance-add n m (step_thread t))

advance_all-add :
    (ns ms : List ℕ) (ts : List SnifferThread)
    → advance_all ms (advance_all ns ts) ≡ advance_all (add ns ms) ts
advance_all-add [] ms ts = refl
advance_all-add (n ∷ ns) [] ts = refl
advance_all-add (n ∷ ns) (m ∷ ms) [] = refl
advance_all-add (n ∷ ns) (m ∷ ms) (t ∷ ts) = rw (advance-add n m t, advance_all-add ns ms ts)

-- Steps of the threads of a list, and then of those behind it.
abbrev beside : List ℕ → List SnifferThread → List ℕ → List ℕ
beside ns [] ms = ms
beside [] (t ∷ ts) ms = 0 ∷ beside [] ts ms
beside (n ∷ ns) (t ∷ ts) ms = n ∷ beside ns ts ms

advance_all-beside :
    (ns ms : List ℕ) (ts us : List SnifferThread)
    → advance_all (beside ns ts ms) (ts ++ us) ≡ advance_all ns ts ++ advance_all ms us
unfolding advance
advance_all-beside [] ms [] us = refl
advance_all-beside (n ∷ ns) ms [] us = refl
advance_all-beside [] ms (t ∷ ts) us = ap (◌∷◌ t) (advance_all-beside [] ms ts us)
advance_all-beside (n ∷ ns) ms (t ∷ ts) us = ap (◌∷◌ (advance n t)) (advance_all-beside ns ms ts us)

pub stop_each_steps :
    (told : List SnifferThread) (waits : List Wait) (ts : List SnifferThread)
    → (before after : List ℕ) × (stop_each told waits ts
        ≡ advance_all after (told ++ map adapter_stop_loop (advance_all before ts)))
unfolding stop_each advance
stop_each_steps told [] ts = ([], [], refl)
stop_each_steps told (w ∷ waits) [] = ([], [], sym (append-nil told))
stop_each_steps told (w ∷ waits) (t ∷ ts) =
    let told' = advance_all w.earlier told in
    let t' = advance w.own (adapter_stop_loop t) in
    let (before, after, e) = stop_each_steps (told' ++ t' ∷ []) waits (advance_all w.later ts) in
    let rest = map adapter_stop_loop (advance_all (add w.later before) ts) in
    let now = beside w.earlier told (w.own ∷ []) in
    (
      0 ∷ add w.later before,
      add now after,
      e
          ∙ ap (λ l. advance_all after ((told' ++ t' ∷ []) ++ map adapter_stop_loop l))
              (advance_all-add w.later before ts)
          ∙ ap (advance_all after) (append_assoc told' (t' ∷ []) rest)
          ∙ ap (advance_all after)
              (sym (advance_all-beside w.earlier (w.own ∷ []) told (adapter_stop_loop t ∷ rest)))
          ∙ advance_all-add now after (told ++ adapter_stop_loop t ∷ rest),
    )

pub length-advance_all :
    (ns : List ℕ) (ts : List SnifferThread) → length (advance_all ns ts) ≡ length ts
length-advance_all [] ts = refl
length-advance_all (n ∷ ns) [] = refl
length-advance_all (n ∷ ns) (t ∷ ts) = omega (arith, length-advance_all ns ts)

pub length-stop_each :
    (told : List SnifferThread) (waits : List Wait) (ts : List SnifferThread)
    → length (stop_each told waits ts) ≡ length told + length ts
unfolding stop_each
length-stop_each told [] ts =
    omega (arith, length-append told (map adapter_stop_loop ts), length-map adapter_stop_loop ts)
length-stop_each told (w ∷ waits) [] = omega arith
length-stop_each told (w ∷ waits) (t ∷ ts) =
    let told' = advance_all w.earlier told in
    let t' = advance w.own (adapter_stop_loop t) in
    omega (
      arith,
      length-stop_each (told' ++ t' ∷ []) waits (advance_all w.later ts),
      length-append told' (t' ∷ []),
      length-advance_all w.earlier told,
      length-advance_all w.later ts,
    )
