-- ===== src/Service/Trace.antt =====
-- What pausing, resuming, stopping and starting the service come to, from the service's beginning.
use ot_tcp_listener.Prelude.{
  ℕ, zero, suc, ◌+◌, true, false, List, [], ◌∷◌, ◌++◌, ◌≡◌, refl, ◌∙◌, ap, arith, length,
}
use ot_tcp_listener.Service.{
  ended, at_test, QThread, SnifferThread, start_thread, step_thread, OtService, start, step_at,
  Event, steps, step, run,
}
use ot_tcp_listener.Service.Lifecycle.{total, polled, total-append}

-- A sniffer thread that was told to stop has ended after two of its steps, at whatever place it was.
pub step_thread_ends :
    (t : SnifferThread) → t.m_stop ≡ true → (step_thread (step_thread t)).place ≡ ended
unfolding step_thread
step_thread_ends t h = ground arith

-- The rounds of one thread, three steps each.
abbrev pub rounds : ℕ → ℕ → List Event
rounds zero i = []
rounds (suc k) i = steps i ∷ steps i ∷ steps i ∷ rounds k i

pub step_at-append :
    (xs : List SnifferThread) (t : SnifferThread) (ys : List SnifferThread)
    → step_at (length xs) (xs ++ t ∷ ys) ≡ xs ++ step_thread t ∷ ys
unfolding step_at
step_at-append [] t ys = refl
step_at-append (x ∷ xs) t ys = ap (◌∷◌ x) (step_at-append xs t ys)

-- A running thread between two rounds, that has asked `p` times.
abbrev pub polling : ℕ → SnifferThread
polling p = record { m_stop = false; place = at_test; polls = p }

round_polls : (p : ℕ) → step_thread (step_thread (step_thread (polling p))) ≡ polling (p + 1)
unfolding step_thread
round_polls p = refl

abbrev pub with_last : OtService → List SnifferThread → SnifferThread → OtService
with_last s xs t = record s { adapter_list = xs ++ t ∷ [] }

module _ (q : QThread) where
  one_step :
      (s : OtService) (xs : List SnifferThread) (t : SnifferThread)
      → step q (with_last s xs t) (steps (length xs)) ≡ with_last s xs (step_thread t)
  unfolding step
  one_step s xs t =
      ap (λ (l : List SnifferThread). record s { adapter_list = l }) (step_at-append xs t [])

  one_round :
      (s : OtService) (xs : List SnifferThread) (p : ℕ)
      → let i = length xs in
        step q (step q (step q (with_last s xs (polling p)) (steps i)) (steps i)) (steps i)
        ≡ with_last s xs (polling (p + 1))
  one_round s xs p =
      let t = step_thread (polling p) in
      rw (one_step s xs (polling p), one_step s xs t, one_step s xs (step_thread t))
        (ap (with_last s xs) (round_polls p))

  run-rounds :
      (k : ℕ) (s : OtService) (xs : List SnifferThread) (p : ℕ)
      → run q (with_last s xs (polling p)) (rounds k (length xs)) ≡ with_last s xs (polling (p + k))
  unfolding run
  run-rounds zero s xs p = ap (λ n. with_last s xs (polling n)) (omega arith)
  run-rounds (suc k) s xs p =
      let count : p + 1 + k ≡ p + suc k = omega arith in
      ap (λ t. run q t (rounds k (length xs))) (one_round s xs p)
      ∙ (run-rounds k s xs (p + 1) ∙ ap (λ n. with_last s xs (polling n)) count)

  -- The new thread is between two rounds.
  pub start-last : (s : OtService) → start q s ≡ with_last (start q s) s.adapter_list (polling 0)
  unfolding start start_thread
  start-last s = rw q.start-ended

  cleared_kept : (s : OtService) → total (start q s).cleared ≡ total s.cleared
  unfolding start
  cleared_kept s = refl

  -- A service that is started captures, whatever its state was: while its new thread makes rounds
  -- and nothing else happens, one packet is asked for in each round.
  pub polled-start :
      (s : OtService) (k : ℕ)
      → polled (run q (start q s) (rounds k (length s.adapter_list))) ≡ polled s + k
  polled-start s k =
      let l = s.adapter_list in
      let told = ap (λ t. polled (run q t (rounds k (length l)))) (start-last s) in
      told
      ∙ ap polled (run-rounds k (start q s) l 0)
      ∙ omega (arith, total-append l (polling (0 + k) ∷ []), cleared_kept s)
