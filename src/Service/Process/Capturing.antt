-- ===== src/Service/Process/Capturing.antt =====
-- From the start of the service to what its sniffer sees and prints.
use ot_tcp_listener.Prelude.{
  true, ℕ, ◌+◌, false, List, [], ◌∷◌, ◌++◌, some, ◌≡◌, refl, sym, ◌∙◌, ap, codes, length,
  append_assoc, append-nil,
}
use ot_tcp_listener.Prelude.Outcome.{Outcome, ok, fault, ◌>>=◌, >>=-assoc_cong}
use ot_tcp_listener.NetworkTools.Address.{mask24}
use ot_tcp_listener.Sniffer.{Capture, Seen, monitor_pcap}
use ot_tcp_listener.Sniffer.Observed.{
  Poll, capture_of, observe_poll, observe_all, monitor_pcap-observe_poll,
}
use ot_tcp_listener.Service.{OtService, SnifferThread, step_thread, step, start}
use ot_tcp_listener.Sniffer.Setup.Ends.{all_succeed}
use ot_tcp_listener.Service.Trace.{polling, start-last, step_at-append}
use ot_tcp_listener.Service.Process.{
  monitor_place, monitor_at, Calls, World, Call, starts, steps, Process, State, up, gone,
  step_process, run_process,
}
use ot_tcp_listener.Service.Process.Suitable.{IsSuitable}
use ot_tcp_listener.Service.Process.Told.{after_call, start_process-after_call}

-- The rounds of the thread at a place of the list: the test of its loop, that of MonitorPcap, and
-- pcap_next_ex with what follows it.
abbrev pub rounds_of : ℕ → List Poll → List Call
rounds_of i [] = []
rounds_of i (k ∷ ks) = let s = steps i (capture_of k) in s ∷ s ∷ s ∷ rounds_of i ks

abbrev pub seen_in : State → List Seen
seen_in (up p) = p.seen
seen_in (gone s) = []

-- The last thread of the list is between two rounds.
abbrev at_round : Process → OtService → List SnifferThread → ℕ → Process
at_round p s xs n = record p { service = record s { adapter_list = xs ++ polling n ∷ [] } }

bind_chain :
    {A B C D : Type 0} (o : Outcome A) (g : A → B) (h : B → C) (k : C → Outcome D)
    → (o >>= (λ x. ok (g x)) >>= (λ y. ok (h y)) >>= k) ≡ (o >>= λ x. k (h (g x)))
bind_chain (ok a) g h k = refl
bind_chain (fault e) g h k = refl

bind_both :
    {A B C D : Type 0} (o : Outcome A) (f : A → Outcome B) (g : B → Outcome D) (f' : A → Outcome C)
    (g' : C → Outcome D)
    → ((a : A) → (f a >>= g) ≡ (f' a >>= g'))
    → (o >>= f >>= g) ≡ (o >>= f' >>= g')
bind_both (ok a) f g f' g' h = h a
bind_both (fault e) f g f' g' h = refl

module _ (c : Calls) where
  monitor_at-append :
      (xs : List SnifferThread) (t : SnifferThread) (ys : List SnifferThread) (capture : Capture)
      → monitor_at c (length xs) (xs ++ t ∷ ys) capture ≡ monitor_place c t.place t.m_stop capture
  unfolding monitor_at
  monitor_at-append [] t ys capture = refl
  monitor_at-append (x ∷ xs) t ys capture = monitor_at-append xs t ys capture

  one_round :
      (p : Process) (s : OtService) (xs : List SnifferThread) (n : ℕ) (capture : Capture)
      (calls : List Call)
      → run_process c
          (up (at_round p s xs n))
          (let s = steps (length xs) capture in s ∷ s ∷ s ∷ calls)
        ≡ (monitor_pcap c.qt false capture >>= λ seen.
            run_process c
              (up (at_round (record p { seen = p.seen ++ seen ∷ [] }) s xs (n + 1)))
              calls)
  unfolding run_process step_process step step_thread
  one_round p s xs n capture calls =
      rw
        (
          monitor_at-append xs (polling n) [] capture,
          step_at-append xs (polling n) [],
          append-nil p.seen,
          monitor_at-append xs (step_thread (polling n)) [] capture,
          step_at-append xs (step_thread (polling n)) [],
          append-nil p.seen,
          monitor_at-append xs (step_thread (step_thread (polling n))) [] capture,
          step_at-append xs (step_thread (step_thread (polling n))) [],
        )
        (bind_chain (monitor_pcap c.qt false capture) _ _ (λ x. run_process c x calls))

  run_process-rounds_of :
      (ks : List Poll) (p : Process) (s : OtService) (xs : List SnifferThread) (n : ℕ)
      → (run_process c (up (at_round p s xs n)) (rounds_of (length xs) ks) >>= λ x. ok (seen_in x))
        ≡ (observe_all c.qt ks >>= λ seen. ok (p.seen ++ seen))
  unfolding run_process
  run_process-rounds_of [] p s xs n = ap ok (sym (append-nil p.seen))
  run_process-rounds_of (k ∷ ks) p s xs n =
      let rest = λ (seen : Seen).
        run_process-rounds_of ks (record p { seen = p.seen ++ seen ∷ [] }) s xs (n + 1) in
      rw
        (
          one_round p s xs n (capture_of k) (rounds_of (length xs) ks),
          monitor_pcap-observe_poll c.qt k,
        )
        (bind_both (observe_poll c.qt k) _ _ _ _ λ seen.
          rest seen
          ∙ >>=-assoc_cong (observe_all c.qt ks) _ _
              λ more. ap ok (append_assoc p.seen (seen ∷ []) more))

  -- Where inet_pton knows 255.255.255.0 and the start finds a suitable card with every call of
  -- libpcap and the system successful: when a process, in whatever state, is started and its new
  -- thread makes a round for each of some results of pcap_next_ex, and nothing else happens, every
  -- result is looked at in its round, and what the process has seen grows by what is observed of
  -- them, in order, up to the first fault.
  pub start-observe_all :
      c.inet_pton (codes "255.255.255.0") ≡ some mask24
      → (p : Process) (w : World) (ks : List Poll) → IsSuitable c w
      → all_succeed w.pcap ≡ true
      → (run_process c (up p) (starts w ∷ rounds_of (length p.service.adapter_list) ks) >>= λ s.
          ok (seen_in s))
        ≡ (observe_all c.qt ks >>= λ seen. ok (p.seen ++ seen))
  unfolding run_process step_process step
  start-observe_all pton24 p w ks suitable calls =
      rw (start_process-after_call c pton24 p w suitable calls) (
        let xs = p.service.adapter_list in
        let started = after_call c p (starts w) in
        let last = start-last c.thread p.service in
        ap
          (λ x.
            run_process c (up (record started { service = x })) (rounds_of (length xs) ks) >>= λ s.
            ok (seen_in s))
          last
        ∙ run_process-rounds_of ks started (start c.thread p.service) xs 0)
