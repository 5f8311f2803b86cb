-- ===== src/Service/Process/Flags.antt =====
-- The stop flags of the sniffers, over all calls of the service manager and steps of the threads.
use ot_tcp_listener.Prelude.{
  ℕ, zero, suc, ◌+◌, Bool, true, false, List, [], ◌∷◌, ◌++◌, map, ◌≡◌, refl, ◌∙◌, ap, All, arith,
  length, replicate,
}
use ot_tcp_listener.Prelude.Outcome.{ok}
use ot_tcp_listener.Service.{
  QThread, SnifferThread, adapter_stop_loop, adapter_set_pause, start_thread, step_thread,
  OtService, initial, start, pause, resume, stop, step_at, step, run,
}
use ot_tcp_listener.Service.Invariant.{is_running, start_runs}
use ot_tcp_listener.Service.Process.{
  Calls, Call, starts, pauses, resumes, stops, steps, cleared_steps, Process, up, new_process,
  step_process, run_process,
}
use ot_tcp_listener.Service.Process.Refines.{event_of, run_process-run}

-- What is promised of the flags: those of the listed adapters, and how many were cleared.
pub record Flags : Type 0 where
  pub listed : List Bool
  pub cleared : ℕ

abbrev pub no_flags : Flags
no_flags = record { listed = []; cleared = 0 }

abbrev pub all_set : List Bool → List Bool
all_set [] = []
all_set (b ∷ flags) = true ∷ all_set flags

-- A start adds a flag that is not set, a pause sets those on the list, a stop clears the list, and
-- neither a resume nor a thread changes any.
abbrev pub flag_call : Flags → Call → Flags
flag_call f (starts w) = record f { listed = f.listed ++ false ∷ [] }
flag_call f pauses = record f { listed = all_set f.listed }
flag_call f resumes = f
flag_call f stops = record { listed = []; cleared = f.cleared + length f.listed }
flag_call f (steps i capture) = f
flag_call f (cleared_steps i capture) = f

abbrev pub flag_calls : Flags → List Call → Flags
flag_calls f [] = f
flag_calls f (call ∷ calls) = flag_calls (flag_call f call) calls

abbrev pub flags_of : List SnifferThread → List Bool
flags_of [] = []
flags_of (t ∷ ts) = t.m_stop ∷ flags_of ts

abbrev pub IsRunningThread : SnifferThread → Type 0
IsRunningThread t = is_running t.place ≡ true

-- The threads of a service have these flags, and those that were cleared are told to stop.
pub record HasFlags (f : Flags) (s : OtService) : Type 0 where
  pub listed : flags_of s.adapter_list ≡ f.listed
  pub cleared : flags_of s.cleared ≡ replicate f.cleared true

flags_of-append : (ts us : List SnifferThread) → flags_of (ts ++ us) ≡ flags_of ts ++ flags_of us
flags_of-append [] us = refl
flags_of-append (t ∷ ts) us = ap (◌∷◌ t.m_stop) (flags_of-append ts us)

flags_of_stopped :
    (ts : List SnifferThread)
    → flags_of (map adapter_stop_loop ts) ≡ replicate (length (flags_of ts)) true
flags_of_stopped [] = refl
flags_of_stopped (t ∷ ts) = ap (◌∷◌ true) (flags_of_stopped ts)

replicate-append : (n m : ℕ) → replicate n true ++ replicate m true ≡ replicate (n + m) true
replicate-append zero m = ap (λ k. replicate k true) (omega arith)
replicate-append (suc n) m =
    let e : suc n + m ≡ suc (n + m) = omega arith in rw e (ap (◌∷◌ true) (replicate-append n m))

step_thread-m_stop : (t : SnifferThread) → (step_thread t).m_stop ≡ t.m_stop
unfolding step_thread
step_thread-m_stop t = ground arith

flags_of-step_at : (i : ℕ) (ts : List SnifferThread) → flags_of (step_at i ts) ≡ flags_of ts
unfolding step_at
flags_of-step_at i [] = refl
flags_of-step_at zero (t ∷ ts) = ap (λ b. b ∷ flags_of ts) (step_thread-m_stop t)
flags_of-step_at (suc i) (t ∷ ts) = ap (◌∷◌ t.m_stop) (flags_of-step_at i ts)

module _ (q : QThread) where
  flags_of_paused :
      (ts : List SnifferThread)
      → flags_of (map (adapter_set_pause q true) ts) ≡ all_set (flags_of ts)
  unfolding adapter_set_pause
  flags_of_paused [] = refl
  flags_of_paused (t ∷ ts) = ap (◌∷◌ true) (flags_of_paused ts)

  flags_of_resumed :
      (ts : List SnifferThread) → flags_of (map (adapter_set_pause q false) ts) ≡ flags_of ts
  unfolding adapter_set_pause start_thread
  flags_of_resumed [] = refl
  flags_of_resumed (t ∷ ts) = ap (◌∷◌ t.m_stop) (flags_of_resumed ts)

  resumed_run : (ts : List SnifferThread) → All IsRunningThread (map (adapter_set_pause q false) ts)
  unfolding adapter_set_pause start_thread
  resumed_run [] = tt
  resumed_run (t ∷ ts) = (start_runs q t.place, resumed_run ts)

  step-HasFlags :
      (f : Flags) (s : OtService) (call : Call)
      → HasFlags f s
      → HasFlags (flag_call f call) (step q s (event_of call))
  unfolding step start pause resume stop start_thread
  step-HasFlags f s (starts w) h = record {
    listed = flags_of-append s.adapter_list _ ∙ ap (λ l. l ++ false ∷ []) h.listed;
    cleared = h.cleared;
  }
  step-HasFlags f s pauses h = record {
    listed = flags_of_paused s.adapter_list ∙ ap all_set h.listed;
    cleared = h.cleared;
  }
  step-HasFlags f s resumes h = record {
    listed = flags_of_resumed s.adapter_list ∙ h.listed;
    cleared = h.cleared;
  }
  step-HasFlags f s stops h = record {
    listed = refl;
    cleared =
        flags_of-append s.cleared (map adapter_stop_loop s.adapter_list)
        ∙ (rw (h.cleared, flags_of_stopped s.adapter_list, h.listed)
            (replicate-append f.cleared (length f.listed)));
  }
  step-HasFlags f s (steps i capture) h = record {
    listed = flags_of-step_at i s.adapter_list ∙ h.listed;
    cleared = h.cleared;
  }
  step-HasFlags f s (cleared_steps i capture) h = record {
    listed = h.listed;
    cleared = flags_of-step_at i s.cleared ∙ h.cleared;
  }

  run-HasFlags :
      (calls : List Call) (f : Flags) (s : OtService)
      → HasFlags f s
      → HasFlags (flag_calls f calls) (run q s (map event_of calls))
  unfolding run
  run-HasFlags [] f s h = h
  run-HasFlags (call ∷ calls) f s h =
      run-HasFlags calls (flag_call f call) (step q s (event_of call)) (step-HasFlags f s call h)

module _ (c : Calls) where
  -- Whatever the starts find: where the process is still up after some calls and steps of the
  -- threads, the stop flags of the adapters on its list are those of an abstract service, in which
  -- a start adds one that is not set, a pause sets all, a stop empties the list, and neither a
  -- resume nor a thread changes any; as many adapters as the stops found on the list were cleared
  -- from it, all told to stop; and a resume from there leaves every thread on the list running.
  pub run_process-HasFlags :
      (calls : List Call) (p : Process)
      → run_process c (up new_process) calls ≡ ok (up p)
      → HasFlags (flag_calls no_flags calls) p.service
        × (p' : Process) × (run_process c (up p) (resumes ∷ []) ≡ ok (up p'))
        × All IsRunningThread p'.service.adapter_list
  unfolding run_process step_process resume
  run_process-HasFlags calls p e =
      let none_yet : HasFlags no_flags initial = record { listed = refl; cleared = refl } in
      let flags = run-HasFlags c.thread calls no_flags initial none_yet in
      (
        rw (run_process-run c calls new_process p e) flags,
        _,
        refl,
        resumed_run c.thread p.service.adapter_list,
      )
