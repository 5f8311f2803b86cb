-- ===== src/Service/Process/Paused.antt =====
-- What a paused service still sees.
use ot_tcp_listener.Prelude.{
  codes, Text, ℕ, zero, suc, ◌+◌, ◌≤◌, Bool, true, false, List, [], ◌∷◌, ◌++◌, map, ◌≡◌, ◌≢◌, refl,
  sym, ◌∙◌, ap, All, append_assoc, append-nil, arith,
}
use ot_tcp_listener.Prelude.Outcome.{Outcome, ok, fault, ◌>>=◌}
use ot_tcp_listener.Sniffer.{Capture, Seen, monitor_pcap}
use ot_tcp_listener.Service.{
  start, pause, resume, stop, step_at, step_thread, Place, ended, at_test, at_monitor, at_capture,
  SnifferThread, adapter_stop_loop, OtService, Event, step, initial,
}
use ot_tcp_listener.Service.Lifecycle.{
  ClearedStopped, IsStopped, AllStopped, NoStart, pause-IsStopped, run-ClearedStopped,
  step-AllStopped, captures, capture_count, capturing, capture_count-set_pause,
  capture_count-append, capture_count-stop,
}
use ot_tcp_listener.Service.Loop.{poll_count, has_polled, monitor_polls}
use ot_tcp_listener.Service.Process.{
  monitor_place, monitor_at, Calls, Call, starts, pauses, resumes, stops, steps, cleared_steps,
  Process, State, up, gone, new_process, step_process, run_process,
}
use ot_tcp_listener.Service.Process.Refines.{event_of, run_process-run}

-- Of a paused process, what some later calls and steps come to. Where the process goes on, the
-- threads that were past the test of MonitorPcap have asked for a packet or still are there, and no
-- thread has asked otherwise. A fault takes a thread that was past the test.
abbrev pub Settled : Process → Outcome State → Type 0
Settled p (ok (up after)) =
    (l : List Seen) × (after.seen ≡ p.seen ++ l)
    × (poll_count l + capturing after.service ≡ capturing p.service)
Settled p (ok (gone s)) = ⊥
Settled p (fault e) = 1 ≤ capturing p.service

-- The same, with all threads told to stop.
Quiet : Process → Outcome State → Type 0
Quiet p (ok (up after)) =
    AllStopped after.service
    × (l : List Seen) × (after.seen ≡ p.seen ++ l)
    × (poll_count l + capturing after.service ≡ capturing p.service)
Quiet p (ok (gone s)) = ⊥
Quiet p (fault e) = 1 ≤ capturing p.service

-- What a step of a thread sees, where that many threads are past the test before and after it.
Counted : ℕ → ℕ → Outcome (List Seen) → Type 0
Counted before after (ok l) = poll_count l + after ≡ before
Counted before after (fault e) = 1 ≤ before

poll_count-append : (l more : List Seen) → poll_count (l ++ more) ≡ poll_count l + poll_count more
poll_count-append [] more = omega arith
poll_count-append (x ∷ l) more = ground (arith, poll_count-append l more)

one_poll :
    (o : Outcome Seen)
    → ((x : Seen) → o ≡ ok x → has_polled x ≡ true)
    → Counted 1 0 (o >>= λ x. ok (x ∷ []))
unfolding Counted
one_poll (ok x) h = ground (arith, h x refl)
one_poll (fault e) h = omega arith

Counted-add :
    (before after before' after' k : ℕ) (o : Outcome (List Seen))
    → before' ≡ before + k
    → after' ≡ after + k
    → Counted before after o
    → Counted before' after' o
unfolding Counted
Counted-add before after before' after' k (ok l) h h' n = omega arith
Counted-add before after before' after' k (fault e) h h' n = omega arith

module _ (c : Calls) where
  monitor_place-Counted :
      (place : Place) (m_stop : Bool) (polls : ℕ) (capture : Capture)
      → m_stop ≡ true
      → let t : SnifferThread = record { m_stop = m_stop; place = place; polls = polls } in
        Counted
          (captures place)
          (captures (step_thread t).place)
          (monitor_place c place m_stop capture)
  unfolding Counted step_thread
  monitor_place-Counted ended m_stop polls capture h = refl
  monitor_place-Counted at_test m_stop polls capture h = rw h refl
  monitor_place-Counted at_monitor m_stop polls capture h = rw h refl
  monitor_place-Counted at_capture m_stop polls capture h =
      one_poll (monitor_pcap c.qt false capture) (monitor_polls c.qt false capture)

  monitor_at-Counted :
      (i : ℕ) (ts : List SnifferThread) (capture : Capture)
      → All IsStopped ts
      → Counted (capture_count ts) (capture_count (step_at i ts)) (monitor_at c i ts capture)
  unfolding monitor_at step_at Counted
  monitor_at-Counted i [] capture h = refl
  monitor_at-Counted zero (t ∷ ts) capture h =
      Counted-add (captures t.place) (captures (step_thread t).place) _ _ (capture_count ts)
        (monitor_place c t.place t.m_stop capture) refl refl
        (monitor_place-Counted t.place t.m_stop t.polls capture h.0)
  monitor_at-Counted (suc i) (t ∷ ts) capture h =
      Counted-add (capture_count ts) (capture_count (step_at i ts)) _ _ (captures t.place)
        (monitor_at c i ts capture) (omega arith) (omega arith)
        (monitor_at-Counted i ts capture h.1)

  -- A step of a thread, with what it sees.
  watch :
      (p : Process) (after : OtService) (o : Outcome (List Seen))
      → AllStopped after
      → Counted (capturing p.service) (capturing after) o
      → Quiet p (o >>= λ l. ok (up (record p { service = after; seen = p.seen ++ l })))
  unfolding Quiet Counted
  watch p after (ok l) told n = (told, l, refl, n)
  watch p after (fault e) told n = n

  -- A call that sees nothing.
  unseen :
      (p : Process) (e : Event) (messages : List Text)
      → e ≢ Event.starts
      → AllStopped p.service
      → capturing (step c.thread p.service e) ≡ capturing p.service
      → Quiet p (ok (up (record p { service = step c.thread p.service e; messages = messages })))
  unfolding Quiet
  unseen p e messages n h same =
      (step-AllStopped c.thread p.service e n h, [], sym (append-nil p.seen), omega arith)

  step_process-Quiet :
      (p : Process) (call : Call)
      → event_of call ≢ Event.starts
      → AllStopped p.service
      → Quiet p (step_process c p call)
  unfolding step_process step start pause resume stop
  step_process-Quiet p (starts w) n h = absurd (n refl)
  step_process-Quiet p pauses n h =
      unseen p Event.pauses _ n h
        (omega (arith, capture_count-set_pause c.thread true p.service.adapter_list))
  step_process-Quiet p resumes n h =
      unseen p Event.resumes _ n h
        (omega (arith, capture_count-set_pause c.thread false p.service.adapter_list))
  step_process-Quiet p stops n h = unseen p Event.stops _ n h (
      omega (
        arith,
        capture_count-append p.service.cleared (map adapter_stop_loop p.service.adapter_list),
        capture_count-stop p.service.adapter_list,
      ))
  step_process-Quiet p (steps i capture) n h =
      let ts = p.service.adapter_list in
      watch p (step c.thread p.service (Event.steps i)) (monitor_at c i ts capture)
        (step-AllStopped c.thread p.service (Event.steps i) n h)
        (Counted-add _ _ _ _ (capture_count p.service.cleared) (monitor_at c i ts capture) refl refl
          (monitor_at-Counted i ts capture h.listed))
  step_process-Quiet p (cleared_steps i capture) n h =
      let ts = p.service.cleared in
      watch p (step c.thread p.service (Event.cleared_steps i)) (monitor_at c i ts capture)
        (step-AllStopped c.thread p.service (Event.cleared_steps i) n h)
        (Counted-add (capture_count ts) (capture_count (step_at i ts)) _ _
          (capture_count p.service.adapter_list) (monitor_at c i ts capture) (omega arith)
          (omega arith) (monitor_at-Counted i ts capture h.cleared))

  -- Later calls after a quiet one.
  Quiet-after :
      (p p' : Process) (l : List Seen) (o : Outcome State)
      → p'.seen ≡ p.seen ++ l
      → poll_count l + capturing p'.service ≡ capturing p.service
      → Quiet p' o
      → Quiet p o
  unfolding Quiet
  Quiet-after p p' l (ok (up after)) seen n (told, more, seen', n') = (
    told,
    l ++ more,
    seen' ∙ ap (λ s. s ++ more) seen ∙ append_assoc p.seen l more,
    omega (arith, poll_count-append l more),
  )
  Quiet-after p p' l (ok (gone s)) seen n q = q
  Quiet-after p p' l (fault e) seen n q = omega arith

  Quiet-bind :
      (p : Process) (o : Outcome State) (next : State → Outcome State)
      → Quiet p o
      → ((p' : Process) → AllStopped p'.service → Quiet p' (next (up p')))
      → Quiet p (o >>= next)
  unfolding Quiet
  Quiet-bind p (ok (up p')) next (told, l, seen, n) h =
      Quiet-after p p' l (next (up p')) seen n (h p' told)
  Quiet-bind p (ok (gone s)) next q h = absurd q
  Quiet-bind p (fault e) next q h = q

  run_process-Quiet :
      (calls : List Call) (p : Process)
      → NoStart (map event_of calls)
      → AllStopped p.service
      → Quiet p (run_process c (up p) calls)
  unfolding run_process Quiet
  run_process-Quiet [] p n h = (h, [], sym (append-nil p.seen), omega arith)
  run_process-Quiet (call ∷ calls) p n h =
      Quiet-bind p (step_process c p call) (λ s. run_process c s calls)
        (step_process-Quiet p call n.0 h) (λ p' told. run_process-Quiet calls p' n.1 told)

  Quiet-Settled :
      (p p' : Process) (o : Outcome State)
      → p'.seen ≡ p.seen
      → capturing p'.service ≡ capturing p.service
      → Quiet p' o
      → Settled p o
  unfolding Quiet
  Quiet-Settled p p' (ok (up after)) seen n (told, more, seen', n') =
      (more, seen' ∙ ap (λ s. s ++ more) seen, n' ∙ n)
  Quiet-Settled p p' (ok (gone s)) seen n q = q
  Quiet-Settled p p' (fault e) seen n q = omega arith

  -- From the beginning of the program on, after all calls and steps of the threads that leave the
  -- process up: once the service is paused, and until it is started anew, however often it is
  -- resumed and whatever libpcap gives, libpcap is asked for no more packets than there were
  -- threads past the test of MonitorPcap when the service was paused: where the process goes on,
  -- the calls of MonitorPcap that have asked since and the threads that are still past the test
  -- are together as many as the threads that were past it; a fault takes at least one such thread;
  -- and no call ends the process.
  pub pause-Settled :
      (before later : List Call) (p : Process)
      → run_process c (up new_process) before ≡ ok (up p)
      → NoStart (map event_of later)
      → Settled p (run_process c (up p) (pauses ∷ later))
  unfolding run_process step_process pause
  pause-Settled before later p e n =
      let service = run_process-run c before new_process p e in
      let cleared : ClearedStopped p.service =
        rw service (run-ClearedStopped c.thread initial (map event_of before) tt) in
      let paused = record p {
        service = pause c.thread p.service;
        messages = p.messages ++ codes "Ot service paused..." ∷ [];
      } in
      let quiet =
        run_process-Quiet later paused n (record {
          listed = pause-IsStopped c.thread p.service.adapter_list;
          cleared = cleared;
        }) in
      Quiet-Settled p paused (run_process c (up paused) later) refl
        (omega (arith, capture_count-set_pause c.thread true p.service.adapter_list)) quiet
