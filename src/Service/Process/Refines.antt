-- ===== src/Service/Process/Refines.antt =====
-- The whole process against the service of threads alone.
use ot_tcp_listener.Prelude.{List, [], ◌∷◌, ◌++◌, map, ◌≡◌, refl, ap, ◌∙◌, arith}
use ot_tcp_listener.Prelude.Outcome.{Outcome, ok, >>=-eq-ok}
use ot_tcp_listener.Service.{Event, new_adapter, start, step, run}
use ot_tcp_listener.Service.Client.{init_client, content}
use ot_tcp_listener.Service.Startup.{
  Running, Start, running, never_started, init_listener, start_of, create_sniffer,
}
use ot_tcp_listener.Service.Process.{
  Calls, World, Call, starts, pauses, resumes, stops, steps, cleared_steps, Process, State, up,
  gone, setup_of, after_start, start_process, step_process, run_process,
}

-- What the threads alone see of a call.
abbrev pub event_of : Call → Event
event_of (starts w) = Event.starts
event_of pauses = Event.pauses
event_of resumes = Event.resumes
event_of stops = Event.stops
event_of (steps i capture) = Event.steps i
event_of (cleared_steps i capture) = Event.cleared_steps i

module _ (c : Calls) where
  -- The thread of a start that succeeds.
  init_listener_thread :
      (p : Process) (w : World) (r : Running)
      → init_listener c.inet_pton c.arg w.pcap c.thread c.contains c.replace c.to_std_string
          w.interfaces p.client w.storage
          (setup_of p)
        ≡ ok (running r)
      → r.thread ≡ new_adapter c.thread
  unfolding init_listener start_of
  init_listener_thread p w r e =
      let clients =
        init_client c.contains c.replace c.to_std_string c.arg c.inet_pton w.interfaces p.client in
      let (told, e1, e2) = >>=-eq-ok clients _ e in
      let birth =
        create_sniffer c.inet_pton c.arg w.pcap told.0 w.storage
          (record (setup_of p) { log = p.messages ++ content told.0 ∷ [] }) in
      let (born, e3, e4) = >>=-eq-ok birth _ e2 in ground (arith, e4)

  after_start-up :
      (p p' : Process) (w : World) (s : Start)
      → init_listener c.inet_pton c.arg w.pcap c.thread c.contains c.replace c.to_std_string
          w.interfaces p.client w.storage
          (setup_of p)
        ≡ ok s
      → ◌≡◌ {A = Outcome State} (ok (after_start p s)) (ok (up p'))
      → p'.service ≡ start c.thread p.service
  unfolding after_start start
  after_start-up p p' w (running r) e h = ground (arith, h, init_listener_thread p w r e)
  after_start-up p p' w (never_started s) e h = ground (arith, h)

  start_process-start :
      (p p' : Process) (w : World)
      → start_process c p w ≡ ok (up p')
      → p'.service ≡ start c.thread p.service
  unfolding start_process start
  start_process-start p p' w e = let (r, e1, e2) = >>=-eq-ok _ _ e in after_start-up p p' w r e1 e2

  step_process-step :
      (p p' : Process) (call : Call)
      → step_process c p call ≡ ok (up p')
      → p'.service ≡ step c.thread p.service (event_of call)
  unfolding step_process step
  step_process-step p p' (starts w) e = start_process-start p p' w e
  step_process-step p p' pauses e = ground (arith, e)
  step_process-step p p' resumes e = ground (arith, e)
  step_process-step p p' stops e = ground (arith, e)
  step_process-step p p' (steps i capture) e = ground (arith, e)
  step_process-step p p' (cleared_steps i capture) e = ground (arith, e)

  -- Only a process that is up gets on to be up.
  run_process-up :
      (calls : List Call) (s : State) (p' : Process)
      → run_process c s calls ≡ ok (up p')
      → (p : Process) × (s ≡ up p)
  unfolding run_process
  run_process-up calls (up p) p' e = (p, refl)
  run_process-up calls (gone s) p' e = ground (arith, e)

  -- Whatever the starts find: where the process is still up after some calls and steps of the
  -- threads, its threads are those of the service of threads alone after the same calls and steps.
  pub run_process-run :
      (calls : List Call) (p p' : Process)
      → run_process c (up p) calls ≡ ok (up p')
      → p'.service ≡ run c.thread p.service (map event_of calls)
  unfolding run_process run
  run_process-run [] p p' e = ground (arith, e)
  run_process-run (call ∷ calls) p p' e =
      let (s, e1, e2) = >>=-eq-ok (step_process c p call) (λ s. run_process c s calls) e in
      let (q, e3) = run_process-up calls s p' e2 in
      run_process-run calls q p' (rw e3 at e2)
      ∙ ap (λ x. run c.thread x (map event_of calls)) (step_process-step p q call (e1 ∙ ap ok e3))
