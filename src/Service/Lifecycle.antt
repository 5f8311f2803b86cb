-- ===== src/Service/Lifecycle.antt =====
-- Which threads ask for packets, over every interleaving of calls and thread steps.
use ot_tcp_listener.Prelude.{
  All-append, ℕ, zero, suc, ◌+◌, Bool, true, false, List, [], ◌∷◌, ◌++◌, map, ◌≡◌, ◌≢◌, refl, ◌∙◌,
  All, arith,
}
use ot_tcp_listener.Service.{
  Place, ended, at_test, at_monitor, at_capture, QThread, SnifferThread, adapter_stop_loop,
  start_thread, adapter_set_pause, step_thread, OtService, start, pause, resume, stop, step_at,
  Event, starts, pauses, resumes, stops, steps, cleared_steps, step, run,
}

-- Whether a thread is past the test of MonitorPcap, before pcap_next_ex, as a number.
abbrev pub captures : Place → ℕ
captures ended = 0
captures at_test = 0
captures at_monitor = 0
captures at_capture = 1

-- How often the threads of a service have asked for a packet, all together.
abbrev pub total : List SnifferThread → ℕ
total [] = 0
total (t ∷ ts) = t.polls + total ts

abbrev pub polled : OtService → ℕ
polled s = total s.adapter_list + total s.cleared

-- How many threads are past the test of MonitorPcap, before pcap_next_ex.
abbrev pub capture_count : List SnifferThread → ℕ
capture_count [] = 0
capture_count (t ∷ ts) = captures t.place + capture_count ts

abbrev pub capturing : OtService → ℕ
capturing s = capture_count s.adapter_list + capture_count s.cleared

-- The packets that were asked for, and those that will be by the threads that are past the tests.
abbrev demand : List SnifferThread → ℕ
demand [] = 0
demand (t ∷ ts) = t.polls + captures t.place + demand ts

abbrev pub IsStopped : SnifferThread → Type 0
IsStopped t = t.m_stop ≡ true

-- Every thread has been told to stop.
pub record AllStopped (s : OtService) : Type 0 where
  pub listed : All IsStopped s.adapter_list
  pub cleared : All IsStopped s.cleared

-- What stop() has taken off the list has been told to stop.
abbrev pub ClearedStopped : OtService → Type 0
ClearedStopped s = All IsStopped s.cleared

abbrev pub NoStart : List Event → Type 0
NoStart es = All (λ e. e ≢ starts) es

pub map_stop_loop-IsStopped : (ts : List SnifferThread) → All IsStopped (map adapter_stop_loop ts)
map_stop_loop-IsStopped [] = tt
map_stop_loop-IsStopped (t ∷ ts) = (refl, map_stop_loop-IsStopped ts)

step_thread-IsStopped : (t : SnifferThread) → IsStopped t → IsStopped (step_thread t)
unfolding step_thread
step_thread-IsStopped t h = ground arith

step_at-IsStopped :
    (i : ℕ) (ts : List SnifferThread) → All IsStopped ts → All IsStopped (step_at i ts)
unfolding step_at
step_at-IsStopped i [] a = tt
step_at-IsStopped zero (t ∷ ts) a = (step_thread-IsStopped t a.0, a.1)
step_at-IsStopped (suc i) (t ∷ ts) a = (a.0, step_at-IsStopped i ts a.1)

demand-total : (ts : List SnifferThread) → demand ts ≡ total ts + capture_count ts
demand-total [] = refl
demand-total (t ∷ ts) = omega (arith, demand-total ts)

pub total-append : (xs ys : List SnifferThread) → total (xs ++ ys) ≡ total xs + total ys
total-append [] ys = omega arith
total-append (x ∷ xs) ys = omega (arith, total-append xs ys)

demand-append : (xs ys : List SnifferThread) → demand (xs ++ ys) ≡ demand xs + demand ys
demand-append [] ys = omega arith
demand-append (x ∷ xs) ys = omega (arith, demand-append xs ys)

pub capture_count-append :
    (xs ys : List SnifferThread) → capture_count (xs ++ ys) ≡ capture_count xs + capture_count ys
capture_count-append [] ys = omega arith
capture_count-append (x ∷ xs) ys = omega (arith, capture_count-append xs ys)

pub capture_count-stop :
    (ts : List SnifferThread) → capture_count (map adapter_stop_loop ts) ≡ capture_count ts
capture_count-stop [] = refl
capture_count-stop (t ∷ ts) = omega (arith, capture_count-stop ts)

demand-stop : (ts : List SnifferThread) → demand (map adapter_stop_loop ts) ≡ demand ts
demand-stop [] = refl
demand-stop (t ∷ ts) = omega (arith, demand-stop ts)

-- A step of a thread that was told to stop.
step_thread-demand :
    (t : SnifferThread)
    → IsStopped t
    → (step_thread t).polls + captures (step_thread t).place ≡ t.polls + captures t.place
unfolding step_thread
step_thread-demand t h = ground arith

demand-step_at :
    (i : ℕ) (ts : List SnifferThread) → All IsStopped ts → demand (step_at i ts) ≡ demand ts
unfolding step_at
demand-step_at i [] a = refl
demand-step_at zero (t ∷ ts) a = omega (arith, step_thread-demand t a.0)
demand-step_at (suc i) (t ∷ ts) a = omega (arith, demand-step_at i ts a.1)

module _ (q : QThread) where
  map_set_pause-IsStopped :
      (p : Bool) (ts : List SnifferThread)
      → All IsStopped ts
      → All IsStopped (map (adapter_set_pause q p) ts)
  unfolding adapter_set_pause start_thread
  map_set_pause-IsStopped p [] a = tt
  map_set_pause-IsStopped true (t ∷ ts) a = (refl, map_set_pause-IsStopped true ts a.1)
  map_set_pause-IsStopped false (t ∷ ts) a = (a.0, map_set_pause-IsStopped false ts a.1)

  pub pause-IsStopped :
      (ts : List SnifferThread) → All IsStopped (map (adapter_set_pause q true) ts)
  unfolding adapter_set_pause
  pause-IsStopped [] = tt
  pause-IsStopped (t ∷ ts) = (refl, pause-IsStopped ts)

  step-ClearedStopped : (s : OtService) (e : Event) → ClearedStopped s → ClearedStopped (step q s e)
  unfolding step start pause resume stop
  step-ClearedStopped s starts h = h
  step-ClearedStopped s pauses h = h
  step-ClearedStopped s resumes h = h
  step-ClearedStopped s stops h =
      All-append IsStopped s.cleared (map adapter_stop_loop s.adapter_list) h
        (map_stop_loop-IsStopped s.adapter_list)
  step-ClearedStopped s (steps i) h = h
  step-ClearedStopped s (cleared_steps i) h = step_at-IsStopped i s.cleared h

  pub run-ClearedStopped :
      (s : OtService) (es : List Event) → ClearedStopped s → ClearedStopped (run q s es)
  unfolding run
  run-ClearedStopped s [] h = h
  run-ClearedStopped s (e ∷ es) h = run-ClearedStopped (step q s e) es (step-ClearedStopped s e h)

  pub step-AllStopped :
      (s : OtService) (e : Event) → e ≢ starts → AllStopped s → AllStopped (step q s e)
  unfolding step start pause resume stop
  step-AllStopped s starts n h = absurd (n refl)
  step-AllStopped s pauses n h = record {
    listed = pause-IsStopped s.adapter_list;
    cleared = h.cleared;
  }
  step-AllStopped s resumes n h = record {
    listed = map_set_pause-IsStopped false s.adapter_list h.listed;
    cleared = h.cleared;
  }
  step-AllStopped s stops n h = record {
    listed = tt;
    cleared =
        All-append IsStopped s.cleared (map adapter_stop_loop s.adapter_list) h.cleared
          (map_stop_loop-IsStopped s.adapter_list);
  }
  step-AllStopped s (steps i) n h = record {
    listed = step_at-IsStopped i s.adapter_list h.listed;
    cleared = h.cleared;
  }
  step-AllStopped s (cleared_steps i) n h = record {
    listed = h.listed;
    cleared = step_at-IsStopped i s.cleared h.cleared;
  }

  captures-start : (p : Place) → captures (q.start p) ≡ captures p
  captures-start ended = rw q.start-ended
  captures-start at_test = rw q.start-at_test
  captures-start at_monitor = rw q.start-at_monitor
  captures-start at_capture = rw q.start-at_capture

  pub capture_count-set_pause :
      (p : Bool) (ts : List SnifferThread)
      → capture_count (map (adapter_set_pause q p) ts) ≡ capture_count ts
  unfolding adapter_set_pause start_thread
  capture_count-set_pause p [] = refl
  capture_count-set_pause true (t ∷ ts) = omega (arith, capture_count-set_pause true ts)
  capture_count-set_pause false (t ∷ ts) =
      omega (arith, capture_count-set_pause false ts, captures-start t.place)

  demand-set_pause :
      (p : Bool) (ts : List SnifferThread) → demand (map (adapter_set_pause q p) ts) ≡ demand ts
  unfolding adapter_set_pause start_thread
  demand-set_pause p [] = refl
  demand-set_pause true (t ∷ ts) = omega (arith, demand-set_pause true ts)
  demand-set_pause false (t ∷ ts) = omega (arith, demand-set_pause false ts, captures-start t.place)

  demand-step :
      (s : OtService) (e : Event)
      → e ≢ starts
      → AllStopped s
      → demand (step q s e).adapter_list + demand (step q s e).cleared
        ≡ demand s.adapter_list + demand s.cleared
  unfolding step start pause resume stop
  demand-step s starts n h = absurd (n refl)
  demand-step s pauses n h = omega (arith, demand-set_pause true s.adapter_list)
  demand-step s resumes n h = omega (arith, demand-set_pause false s.adapter_list)
  demand-step s stops n h = omega (
    arith,
    demand-append s.cleared (map adapter_stop_loop s.adapter_list),
    demand-stop s.adapter_list,
  )
  demand-step s (steps i) n h = omega (arith, demand-step_at i s.adapter_list h.listed)
  demand-step s (cleared_steps i) n h = omega (arith, demand-step_at i s.cleared h.cleared)

  pub polled-step :
      (s : OtService) (e : Event)
      → e ≢ starts
      → AllStopped s
      → polled (step q s e) + capturing (step q s e) ≡ polled s + capturing s
  polled-step s e n h = omega (
    arith,
    demand-step s e n h,
    demand-total s.adapter_list,
    demand-total s.cleared,
    demand-total (step q s e).adapter_list,
    demand-total (step q s e).cleared,
  )

  -- Threads that have all been told to stop ask for no more packets than there are of them past the
  -- test of MonitorPcap, unless the service is started.
  pub polled-run :
      (s : OtService) (es : List Event)
      → AllStopped s
      → NoStart es
      → polled (run q s es) + capturing (run q s es) ≡ polled s + capturing s
  unfolding run
  polled-run s [] h n = refl
  polled-run s (e ∷ es) h n =
      polled-run (step q s e) es (step-AllStopped s e n.0 h) n.1 ∙ polled-step s e n.0 h
