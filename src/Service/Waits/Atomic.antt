-- ===== src/Service/Waits/Atomic.antt =====
-- Stopping with waits against the stop that sets all flags at once.
use ot_tcp_listener.Prelude.{
  true, ℕ, zero, suc, ◌+◌, List, [], ◌∷◌, ◌++◌, map, ◌≡◌, refl, sym, ◌∙◌, ap, All, All-append,
  arith, length, replicate, append_assoc, length-append,
}
use ot_tcp_listener.Service.{
  SnifferThread, step_thread, adapter_stop_loop, QThread, OtService, listener_stop,
  listener_set_pause, adapter_set_pause, step_at, Event, starts, pauses, resumes, stops, initial,
  steps, cleared_steps, step, run,
}
use ot_tcp_listener.Service.Lifecycle.{
  polled, capturing, polled-run, IsStopped, AllStopped, ClearedStopped, NoStart, pause-IsStopped,
  run-ClearedStopped, map_stop_loop-IsStopped,
}
use ot_tcp_listener.Service.Trace.{step_at-append}
use ot_tcp_listener.Service.Waits.{
  advance, advance_all, Wait, stop_waiting, pause_waiting, stop_each_steps,
}

-- The events of some steps of the threads of a list, `event` being that of a place.
abbrev events_of : (ℕ → Event) → ℕ → List ℕ → List SnifferThread → List Event
events_of event i ns [] = []
events_of event i [] (t ∷ ts) = []
events_of event i (n ∷ ns) (t ∷ ts) = replicate n (event i) ++ events_of event (suc i) ns ts

abbrev pub IsThreadStep : Event → Type 0
IsThreadStep (steps i) = Unit
IsThreadStep (cleared_steps i) = Unit
IsThreadStep _ = ⊥

module _ (event : ℕ → Event) (is_step : (i : ℕ) → IsThreadStep (event i)) where
  replicate-IsThreadStep : (n i : ℕ) → All IsThreadStep (replicate n (event i))
  replicate-IsThreadStep zero i = tt
  replicate-IsThreadStep (suc n) i = (is_step i, replicate-IsThreadStep n i)

  events_of-IsThreadStep :
      (i : ℕ) (ns : List ℕ) (ts : List SnifferThread) → All IsThreadStep (events_of event i ns ts)
  events_of-IsThreadStep i ns [] = tt
  events_of-IsThreadStep i [] (t ∷ ts) = tt
  events_of-IsThreadStep i (n ∷ ns) (t ∷ ts) =
      All-append IsThreadStep (replicate n (event i)) _ (replicate-IsThreadStep n i)
        (events_of-IsThreadStep (suc i) ns ts)

run-append :
    (q : QThread) (s : OtService) (es fs : List Event) → run q s (es ++ fs) ≡ run q (run q s es) fs
unfolding run
run-append q s [] fs = refl
run-append q s (e ∷ es) fs = run-append q (step q s e) es fs

-- `put` puts a list of threads where the events step them.
module _ (q : QThread) (event : ℕ → Event) (put : List SnifferThread → OtService)
    (steps_it : (i : ℕ) (l : List SnifferThread)
      → step q (put l) (event i) ≡ put (step_at i l)) where
  run-replicate :
      (n : ℕ) (xs ys : List SnifferThread) (t : SnifferThread)
      → run q (put (xs ++ t ∷ ys)) (replicate n (event (length xs))) ≡ put (xs ++ advance n t ∷ ys)
  unfolding run advance
  run-replicate zero xs ys t = refl
  run-replicate (suc n) xs ys t =
      ap (λ s. run q s (replicate n (event (length xs))))
        (steps_it (length xs) (xs ++ t ∷ ys) ∙ ap put (step_at-append xs t ys))
      ∙ run-replicate n xs ys (step_thread t)

  run-events_of :
      (xs : List SnifferThread) (ns : List ℕ) (ts : List SnifferThread)
      → run q (put (xs ++ ts)) (events_of event (length xs) ns ts) ≡ put (xs ++ advance_all ns ts)
  unfolding run
  run-events_of xs [] [] = refl
  run-events_of xs (n ∷ ns) [] = refl
  run-events_of xs [] (t ∷ ts) = refl
  run-events_of xs (n ∷ ns) (t ∷ ts) =
      let t' = advance n t in
      let later = events_of event (suc (length xs)) ns ts in
      let size : length (xs ++ t' ∷ []) ≡ suc (length xs) =
        omega (arith, length-append xs (t' ∷ [])) in
      let rest = run-events_of (xs ++ t' ∷ []) ns ts in
      run-append q (put (xs ++ t ∷ ts)) (replicate n (event (length xs))) later
      ∙ ap (λ s. run q s later) (run-replicate n xs ts t)
      ∙ (rw (append_assoc xs (t' ∷ []) ts, append_assoc xs (t' ∷ []) (advance_all ns ts), size) at
          rest)

-- In every state: OtListener::stop as the loop that tells one adapter after the other and waits
-- for each, with any steps of the threads in these waits, comes to the same as some steps of the
-- threads, the stop that sets all flags at once, and some further steps of the threads.
pub stop_waiting-run :
    (q : QThread) (waits : List Wait) (s : OtService)
    → (before after : List Event) × All IsThreadStep before
      × All IsThreadStep after
      × (stop_waiting waits s ≡ run q (listener_stop (run q s before)) after)
unfolding stop_waiting step
stop_waiting-run q waits s =
    let (before, after, e) = stop_each_steps s.cleared waits s.adapter_list in
    let stepped = advance_all before s.adapter_list in
    let told = s.cleared ++ map adapter_stop_loop stepped in
    let listed = λ (l : List SnifferThread). record s { adapter_list = l } in
    let off = λ (l : List SnifferThread). record s { adapter_list = []; cleared = l } in
    (
      events_of steps 0 before s.adapter_list,
      events_of cleared_steps 0 after told,
      events_of-IsThreadStep steps (λ i. tt) 0 before s.adapter_list,
      events_of-IsThreadStep cleared_steps (λ i. tt) 0 after told,
      ap off e
          ∙ sym (run-events_of q cleared_steps off (λ i l. refl) [] after told)
          ∙ ap (λ t. run q (listener_stop t) (events_of cleared_steps 0 after told))
              (sym (run-events_of q steps listed (λ i l. refl) [] before s.adapter_list)),
    )

map-set_pause :
    (q : QThread) (ts : List SnifferThread)
    → map (adapter_set_pause q true) ts ≡ map adapter_stop_loop ts
unfolding adapter_set_pause
map-set_pause q [] = refl
map-set_pause q (t ∷ ts) = ap (◌∷◌ (adapter_stop_loop t)) (map-set_pause q ts)

-- OtListener::setPause(true) as such a loop comes to the pause that sets all flags at once, between
-- some steps of the threads.
pub pause_waiting-run :
    (q : QThread) (waits : List Wait) (s : OtService)
    → (before after : List Event) × All IsThreadStep before
      × All IsThreadStep after
      × (pause_waiting waits s ≡ run q (listener_set_pause q true (run q s before)) after)
unfolding pause_waiting step
pause_waiting-run q waits s =
    let (before, after, e) = stop_each_steps [] waits s.adapter_list in
    let stepped = advance_all before s.adapter_list in
    let told = map adapter_stop_loop stepped in
    let listed = λ (l : List SnifferThread). record s { adapter_list = l } in
    (
      events_of steps 0 before s.adapter_list,
      events_of steps 0 after told,
      events_of-IsThreadStep steps (λ i. tt) 0 before s.adapter_list,
      events_of-IsThreadStep steps (λ i. tt) 0 after told,
      ap listed e
          ∙ sym (run-events_of q steps listed (λ i l. refl) [] after told)
          ∙ ap (λ l. run q (listed l) (events_of steps 0 after told))
              (sym (map-set_pause q stepped))
          ∙ ap (λ t. run q (listener_set_pause q true t) (events_of steps 0 after told))
              (sym (run-events_of q steps listed (λ i l. refl) [] before s.adapter_list)),
    )

IsThreadStep-NoStart : (es : List Event) → All IsThreadStep es → NoStart es
IsThreadStep-NoStart [] h = tt
IsThreadStep-NoStart (starts ∷ es) h = absurd h.0
IsThreadStep-NoStart (pauses ∷ es) h = absurd h.0
IsThreadStep-NoStart (resumes ∷ es) h = absurd h.0
IsThreadStep-NoStart (stops ∷ es) h = absurd h.0
IsThreadStep-NoStart (steps i ∷ es) h = (λ e. ground (arith, e), IsThreadStep-NoStart es h.1)
IsThreadStep-NoStart (cleared_steps i ∷ es) h =
    (λ e. ground (arith, e), IsThreadStep-NoStart es h.1)

listener_stop-AllStopped : (s : OtService) → ClearedStopped s → AllStopped (listener_stop s)
listener_stop-AllStopped s h = record {
  listed = tt;
  cleared =
      All-append IsStopped s.cleared (map adapter_stop_loop s.adapter_list) h
        (map_stop_loop-IsStopped s.adapter_list);
}

listener_set_pause-AllStopped :
    (q : QThread) (s : OtService) → ClearedStopped s → AllStopped (listener_set_pause q true s)
listener_set_pause-AllStopped q s h = record {
  listed = pause-IsStopped q s.adapter_list;
  cleared = h;
}

-- Where a state comes from one in which all threads are told to stop, by steps of the threads.
polled_later :
    (q : QThread) (s told : OtService) (after later : List Event)
    → AllStopped told
    → All IsThreadStep after
    → s ≡ run q told after
    → NoStart later
    → polled (run q s later) + capturing (run q s later) ≡ polled s + capturing s
polled_later q s told after later stopped a e n =
    let quiet = IsThreadStep-NoStart after a in
    let all = polled-run q told (after ++ later) stopped (All-append _ after later quiet n) in
    let first = polled-run q told after stopped quiet in
    rw (e, sym (run-append q told after later), first) all

-- Once setPause(true) has told one adapter after the other, with any steps of the threads in its
-- waits, libpcap is asked for no more packets than there are threads past the tests by then, until
-- the service is started anew.
pub polled-pause_waiting :
    (q : QThread) (history : List Event) (waits : List Wait) (later : List Event)
    → NoStart later
    → let s = pause_waiting waits (run q initial history) in
      polled (run q s later) + capturing (run q s later) ≡ polled s + capturing s
polled-pause_waiting q history waits later n =
    let reached = run q initial history in
    let (before, after, b, a, e) = pause_waiting-run q waits reached in
    let s = run q reached before in
    let told =
      listener_set_pause-AllStopped q s
        (run-ClearedStopped q reached before (run-ClearedStopped q initial history tt)) in
    polled_later q (pause_waiting waits reached) (listener_set_pause q true s) after later told a e
      n

-- From the beginning of the service on, after every sequence of calls and thread steps: once
-- OtListener::stop has told one adapter after the other, with any steps of the threads in its
-- waits, the list of adapters is empty, and until the service is started anew libpcap is asked for
-- no more packets than there are threads past the test of MonitorPcap by then: the packets that
-- were asked for and the threads past the test stay together as many as they are then.
pub polled-stop_waiting :
    (q : QThread) (history : List Event) (waits : List Wait) (later : List Event)
    → NoStart later
    → let s = stop_waiting waits (run q initial history) in
      (s.adapter_list ≡ [])
      × (polled (run q s later) + capturing (run q s later) ≡ polled s + capturing s)
unfolding stop_waiting
polled-stop_waiting q history waits later n =
    let reached = run q initial history in
    let (before, after, b, a, e) = stop_waiting-run q waits reached in
    let stopped = listener_stop (run q reached before) in
    let told =
      listener_stop-AllStopped (run q reached before)
        (run-ClearedStopped q reached before (run-ClearedStopped q initial history tt)) in
    (refl, polled_later q (stop_waiting waits reached) stopped after later told a e n)
