-- ===== src/Service/Process/Told.antt =====
-- What the calls of a service write, where every start finds a suitable card.
use ot_tcp_listener.Prelude.{
  ℕ, zero, suc, Bool, true, List, [], ◌∷◌, ◌++◌, map, some, ◌≡◌, refl, sym, ◌∙◌, All, Text, codes,
  append_assoc, append-nil,
}
use ot_tcp_listener.Prelude.Outcome.{ok}
use ot_tcp_listener.NetworkTools.Address.{mask24}
use ot_tcp_listener.NetworkTools.Clean.{printable, change_tr_characters}
use ot_tcp_listener.Sniffer.Setup.Ends.{all_succeed}
use ot_tcp_listener.Sniffer.Setup.Told.{set_up-returned}
use ot_tcp_listener.Sniffer.Sweep.{segment_ip_list-hosts}
use ot_tcp_listener.Sniffer.{Capture, Seen, monitor_pcap}
use ot_tcp_listener.Service.{
  Place, ended, at_test, at_monitor, at_capture, SnifferThread, start, step, run,
}
use ot_tcp_listener.Service.Client.{OtClient, new_client, content, init_client-first}
use ot_tcp_listener.Service.Startup.{init_listener, create_sniffer, birth_of, start_of, client_of}
use ot_tcp_listener.Service.Process.{
  monitor_place, monitor_at, Calls, World, Call, starts, pauses, resumes, stops, steps,
  cleared_steps, Process, up, setup_of, after_start, start_process, step_process, run_process,
}
use ot_tcp_listener.Service.Process.Refines.{event_of}
use ot_tcp_listener.Service.Process.Suitable.{
  found_client, IsSuitable, Returns, Suitable, messages_of, all_messages,
}

append_one_by_one :
    (ts : List Text) (t1 t2 t3 t4 t5 : Text)
    → ((((ts ++ t1 ∷ []) ++ t2 ∷ []) ++ t3 ∷ []) ++ t4 ∷ []) ++ t5 ∷ []
      ≡ ts ++ t1 ∷ t2 ∷ t3 ∷ t4 ∷ t5 ∷ []
append_one_by_one ts t1 t2 t3 t4 t5 = simp append_assoc

module _ (c : Calls) where
  abbrev pub client_after : Call → OtClient → OtClient
  client_after (starts w) client = found_client c w client
  client_after _ client = client

  -- The message tells nothing that a start leaves alone.
  content-found_client :
      (w : World) (client : OtClient)
      → content (found_client c w client) ≡ content (found_client c w new_client)
  unfolding content
  content-found_client w client = refl

  monitor_place-Returns :
      (place : Place) (m_stop : Bool) (capture : Capture)
      → Returns c capture
      → (seen : List Seen) × (monitor_place c place m_stop capture ≡ ok seen)
  unfolding monitor_pcap
  monitor_place-Returns ended m_stop capture r = ([], refl)
  monitor_place-Returns at_test m_stop capture r = ([], refl)
  monitor_place-Returns at_monitor m_stop capture r = (_, refl)
  monitor_place-Returns at_capture m_stop capture (seen, e) = (seen ∷ [], rw e)

  monitor_at-Returns :
      (i : ℕ) (ts : List SnifferThread) (capture : Capture)
      → Returns c capture
      → (seen : List Seen) × (monitor_at c i ts capture ≡ ok seen)
  unfolding monitor_at
  monitor_at-Returns i [] capture r = ([], refl)
  monitor_at-Returns zero (t ∷ ts) capture r = monitor_place-Returns t.place t.m_stop capture r
  monitor_at-Returns (suc i) (t ∷ ts) capture r = monitor_at-Returns i ts capture r

  -- The process after a call, but for what was seen.
  abbrev pub after_call : Process → Call → Process
  after_call p call = record p {
    client = client_after call p.client;
    service = step c.thread p.service (event_of call);
    messages = p.messages ++ messages_of c call;
  }

  module _ (pton24 : c.inet_pton (codes "255.255.255.0") ≡ some mask24) where
    -- A start on a suitable machine.
    pub start_process-after_call :
        (p : Process) (w : World)
        → IsSuitable c w
        → all_succeed w.pcap ≡ true
        → start_process c p w ≡ ok (up (after_call p (starts w)))
    unfolding start_process init_listener create_sniffer birth_of start_of after_start start step
    start_process-after_call p w s calls =
        let clean : Text → Text =
          λ name. printable (c.to_std_string (change_tr_characters c.replace name)) in
        let client = client_of clean p.client s.interface s.entry s.address s.mask in
        let told =
          init_client-first c.contains c.replace c.to_std_string c.arg c.inet_pton w.interfaces
            p.client s.interface s.entry s.address s.mask s.first s.address_known s.mask_known in
        let listed =
          segment_ip_list-hosts c.inet_pton s.entry.ip s.address s.octets s.address_known pton24 in
        let set =
          set_up-returned c.arg w.pcap (clean s.interface.name) w.storage
            (record (setup_of p) { log = p.messages ++ content client ∷ [] }) calls s.size in
        rw (
          ← content-found_client w p.client,
          ← append_one_by_one,
          s.first,
          s.address_known,
          s.mask_known,
          told,
          listed,
          set,
        )

    -- After a suitable call the process is up; what was seen depends on the threads.
    step_process-after_call :
        (p : Process) (call : Call)
        → Suitable c call
        → (seen : List Seen) × (step_process c p call
            ≡ ok (up (record (after_call p call) { seen = seen })))
    unfolding step_process step
    step_process-after_call p (starts w) s = (p.seen, start_process-after_call p w s.0 s.1)
    step_process-after_call p pauses s = (p.seen, refl)
    step_process-after_call p resumes s = (p.seen, refl)
    step_process-after_call p stops s = (p.seen, refl)
    step_process-after_call p (steps i capture) s =
        let (seen, e) = monitor_at-Returns i p.service.adapter_list capture s in
        (p.seen ++ seen, rw (e, append-nil p.messages))
    step_process-after_call p (cleared_steps i capture) s =
        let (seen, e) = monitor_at-Returns i p.service.cleared capture s in
        (p.seen ++ seen, rw (e, append-nil p.messages))

    -- Where every start finds a suitable card and MonitorPcap returns on everything that it could
    -- get, the process is up after all calls, has written their messages and has made no
    -- complaint.
    pub run_process-all_messages :
        (calls : List Call) (p : Process)
        → All (Suitable c) calls
        → (p' : Process) × (run_process c (up p) calls ≡ ok (up p'))
          × (p'.service ≡ run c.thread p.service (map event_of calls))
          × (p'.messages ≡ p.messages ++ all_messages c calls)
          × (p'.stderr ≡ p.stderr)
          × (p'.descriptors ≡ p.descriptors)
    unfolding run_process run
    run_process-all_messages [] p s = (p, refl, refl, sym (append-nil p.messages), refl, refl)
    run_process-all_messages (call ∷ calls) p s =
        let (seen, stepped) = step_process-after_call p call s.0 in
        let (p', ends, service, messages, stderr, descriptors) =
          run_process-all_messages calls (record (after_call p call) { seen = seen }) s.1 in
        (
          p',
          rw stepped ends,
          service,
          messages ∙ append_assoc p.messages (messages_of c call) (all_messages c calls),
          stderr,
          descriptors,
        )
