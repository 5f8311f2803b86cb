-- ===== src/Service/Invariant.antt =====
-- What holds of the service in every state that it reaches.
use ot_tcp_listener.Prelude.{
  ℕ, zero, suc, ◌+◌, Bool, ◌||◌, true, false, List, [], ◌∷◌, map, ◌≡◌, refl, All, arith, length,
  length-append, All-append,
}
use ot_tcp_listener.Service.{
  ended, at_test, at_monitor, at_capture, Place, QThread, SnifferThread, adapter_stop_loop,
  start_thread, adapter_set_pause, step_thread, OtService, initial, start, pause, resume, stop,
  step_at, Event, starts, pauses, resumes, stops, steps, cleared_steps, step, run,
}
use ot_tcp_listener.Service.Lifecycle.{IsStopped, run-ClearedStopped}

-- QThread::isRunning
abbrev pub is_running : Place → Bool
is_running ended = false
is_running at_test = true
is_running at_monitor = true
is_running at_capture = true

-- A thread has ended only if it was told to stop.
abbrev pub EndsStopped : SnifferThread → Type 0
EndsStopped t = (t.m_stop || is_running t.place) ≡ true

-- How many of some events are calls of start, and how many are calls at all.
abbrev pub start_count : List Event → ℕ
start_count [] = 0
start_count (starts ∷ es) = suc (start_count es)
start_count (pauses ∷ es) = start_count es
start_count (resumes ∷ es) = start_count es
start_count (stops ∷ es) = start_count es
start_count (steps i ∷ es) = start_count es
start_count (cleared_steps i ∷ es) = start_count es

abbrev pub thread_count : OtService → ℕ
thread_count s = length s.adapter_list + length s.cleared

pub record IsValid (s : OtService) : Type 0 where
  pub listed : All EndsStopped s.adapter_list
  pub cleared : All IsStopped s.cleared

step_thread-EndsStopped : (t : SnifferThread) → EndsStopped t → EndsStopped (step_thread t)
unfolding step_thread
step_thread-EndsStopped t h = ground arith

step_at-EndsStopped :
    (i : ℕ) (ts : List SnifferThread) → All EndsStopped ts → All EndsStopped (step_at i ts)
unfolding step_at
step_at-EndsStopped i [] a = tt
step_at-EndsStopped zero (t ∷ ts) a = (step_thread-EndsStopped t a.0, a.1)
step_at-EndsStopped (suc i) (t ∷ ts) a = (a.0, step_at-EndsStopped i ts a.1)

length-step_at : (i : ℕ) (ts : List SnifferThread) → length (step_at i ts) ≡ length ts
unfolding step_at
length-step_at i [] = refl
length-step_at zero (t ∷ ts) = refl
length-step_at (suc i) (t ∷ ts) = omega (arith, length-step_at i ts)

pub length-map :
    (f : SnifferThread → SnifferThread) (ts : List SnifferThread) → length (map f ts) ≡ length ts
length-map f [] = refl
length-map f (t ∷ ts) = omega (arith, length-map f ts)

module _ (q : QThread) where
  pub start_runs : (p : Place) → is_running (q.start p) ≡ true
  start_runs ended = rw q.start-ended
  start_runs at_test = rw q.start-at_test
  start_runs at_monitor = rw q.start-at_monitor
  start_runs at_capture = rw q.start-at_capture

  start_thread-EndsStopped : (t : SnifferThread) → EndsStopped (start_thread q t)
  unfolding start_thread
  start_thread-EndsStopped t = ground (arith, start_runs t.place)

  set_pause-EndsStopped :
      (p : Bool) (ts : List SnifferThread) → All EndsStopped (map (adapter_set_pause q p) ts)
  unfolding adapter_set_pause
  set_pause-EndsStopped p [] = tt
  set_pause-EndsStopped true (t ∷ ts) = (refl, set_pause-EndsStopped true ts)
  set_pause-EndsStopped false (t ∷ ts) =
      (start_thread-EndsStopped t, set_pause-EndsStopped false ts)

  step-listed :
      (s : OtService) (e : Event)
      → All EndsStopped s.adapter_list
      → All EndsStopped (step q s e).adapter_list
  unfolding step start pause resume stop
  step-listed s starts h =
      All-append EndsStopped s.adapter_list
        (start_thread q (record { m_stop = false; place = ended; polls = 0 }) ∷ []) h
        (start_thread-EndsStopped (record { m_stop = false; place = ended; polls = 0 }), tt)
  step-listed s pauses h = set_pause-EndsStopped true s.adapter_list
  step-listed s resumes h = set_pause-EndsStopped false s.adapter_list
  step-listed s stops h = tt
  step-listed s (steps i) h = step_at-EndsStopped i s.adapter_list h
  step-listed s (cleared_steps i) h = h

  run-listed :
      (s : OtService) (es : List Event)
      → All EndsStopped s.adapter_list
      → All EndsStopped (run q s es).adapter_list
  unfolding run
  run-listed s [] h = h
  run-listed s (e ∷ es) h = run-listed (step q s e) es (step-listed s e h)

  thread_count-step :
      (s : OtService) (e : Event)
      → thread_count (step q s e) ≡ thread_count s + start_count (e ∷ [])
  unfolding step start pause resume stop
  thread_count-step s starts = omega (
    arith,
    length-append s.adapter_list
        (start_thread q (record { m_stop = false; place = ended; polls = 0 }) ∷ []),
  )
  thread_count-step s pauses = omega (arith, length-map (adapter_set_pause q true) s.adapter_list)
  thread_count-step s resumes = omega (arith, length-map (adapter_set_pause q false) s.adapter_list)
  thread_count-step s stops = omega (
    arith,
    length-append s.cleared (map adapter_stop_loop s.adapter_list),
    length-map adapter_stop_loop s.adapter_list,
  )
  thread_count-step s (steps i) = omega (arith, length-step_at i s.adapter_list)
  thread_count-step s (cleared_steps i) = omega (arith, length-step_at i s.cleared)

  start_count-cons :
      (e : Event) (es : List Event) → start_count (e ∷ es) ≡ start_count (e ∷ []) + start_count es
  start_count-cons e es = ground arith

  thread_count-run :
      (s : OtService) (es : List Event)
      → thread_count (run q s es) ≡ thread_count s + start_count es
  unfolding run
  thread_count-run s [] = omega arith
  thread_count-run s (e ∷ es) =
      omega (arith, thread_count-run (step q s e) es, thread_count-step s e, start_count-cons e es)

  -- From the beginning of the service on, after every sequence of calls and thread steps: a
  -- sniffer thread on the list has ended only if it was told to stop, every thread that was taken
  -- off the list was told to stop, and there are as many threads as there were starts.
  pub run-IsValid :
      (es : List Event)
      → IsValid (run q initial es) × (thread_count (run q initial es) ≡ start_count es)
  run-IsValid es = (
    record { listed = run-listed initial es tt; cleared = run-ClearedStopped q initial es tt },
    omega (arith, thread_count-run initial es),
  )
