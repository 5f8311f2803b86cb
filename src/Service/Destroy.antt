-- ===== src/Service/Destroy.antt =====
-- The destructors of OtService, OtListener, Adapter and Sniffer. Qt destroys the children of an
-- object with it, in the order in which they were made, and a QThread that is destroyed while it
-- runs ends the process.
use ot_tcp_listener.Prelude.{
  ℕ, zero, suc, ◌≤◌, Bool, not, true, ◌&&◌, List, [], ◌∷◌, ◌≡◌, refl, All, arith, length, ap,
}
use ot_tcp_listener.Service.{
  ended, QThread, SnifferThread, adapter_stop_loop, stop_loop, step_thread, OtService, initial,
  Event, run,
}
use ot_tcp_listener.Service.Trace.{step_thread_ends}
use ot_tcp_listener.Service.Waits.{
  Wait, advance, advance_all, stop_each, stop_waiting, length-advance_all, length-stop_each,
}
use ot_tcp_listener.Service.Invariant.{is_running, start_count, run-IsValid}

-- Adapter::~Adapter and then the destructors of its child: stopLoop, a wait in which the thread
-- makes the given number of steps, Sniffer::~Sniffer, and the test of ~QThread.
abbrev pub delete_adapter : ℕ → SnifferThread → Bool
delete_adapter n t = not (is_running (stop_loop (advance n (adapter_stop_loop t))).place)

-- The adapters are destroyed one by one. For each there is a list with the steps that its thread,
-- and those after it, make while it is waited for; where the lists have ended no thread makes a
-- step. The result is whether no running thread is destroyed.
unfoldable pub delete_adapters : List (List ℕ) → List SnifferThread → Bool
delete_adapters waits [] = true
delete_adapters [] (t ∷ ts) = let rest = delete_adapters [] ts in delete_adapter 0 t && rest
delete_adapters ([] ∷ waits) (t ∷ ts) =
    let rest = delete_adapters waits ts in delete_adapter 0 t && rest
delete_adapters ((n ∷ ns) ∷ waits) (t ∷ ts) =
    let rest = delete_adapters waits (advance_all ns ts) in delete_adapter n t && rest

-- OtService::~OtService: OtListener::stop, in whose waits the threads step too, and `delete` of the
-- listener, whose children are all adapters that it has ever made. The logger is deleted after that:
-- its destructor is in Logger.
unfoldable pub delete_service : List Wait → List (List ℕ) → OtService → Bool
delete_service stop_waits waits s = delete_adapters waits (stop_waiting stop_waits s).cleared

-- Two steps in the wait for an adapter.
abbrev pub TwoSteps : List ℕ → Type 0
TwoSteps [] = ⊥
TwoSteps (n ∷ ns) = 2 ≤ n

advance_ended : (n : ℕ) (t : SnifferThread) → t.place ≡ ended → (advance n t).place ≡ ended
unfolding advance step_thread
advance_ended zero t h = h
advance_ended (suc n) t h = advance_ended n (step_thread t) (ground arith)

delete_adapter_ends : (n : ℕ) (t : SnifferThread) → 2 ≤ n → delete_adapter n t ≡ true
unfolding advance
delete_adapter_ends zero t h = absurd (omega arith)
delete_adapter_ends (suc zero) t h = absurd (omega arith)
delete_adapter_ends (suc (suc n)) t h =
    ap (λ p. not (is_running p))
      (advance_ended n (step_thread (step_thread (adapter_stop_loop t)))
        (step_thread_ends (adapter_stop_loop t) refl))

delete_adapters_ends :
    (waits : List (List ℕ)) (ts : List SnifferThread)
    → length ts ≤ length waits
    → All TwoSteps waits
    → delete_adapters waits ts ≡ true
unfolding delete_adapters
delete_adapters_ends waits [] h two = refl
delete_adapters_ends [] (t ∷ ts) h two = absurd (omega arith)
delete_adapters_ends ([] ∷ waits) (t ∷ ts) h two = absurd two.0
delete_adapters_ends ((n ∷ ns) ∷ waits) (t ∷ ts) h two = rw (
  delete_adapter_ends n t two.0,
  delete_adapters_ends waits (advance_all ns ts) (omega (arith, length-advance_all ns ts)) two.1,
)

-- After every sequence of calls and thread steps, the destructor of OtService destroys no thread
-- that runs, if there is a wait for each start and the thread that is waited for makes two steps
-- or more in it.
pub delete_service-run :
    (q : QThread) (es : List Event) (stop_waits : List Wait) (waits : List (List ℕ))
    → start_count es ≤ length waits
    → All TwoSteps waits
    → delete_service stop_waits waits (run q initial es) ≡ true
unfolding delete_service stop_waiting
delete_service-run q es stop_waits waits h two =
    let s = run q initial es in
    delete_adapters_ends waits (stop_each s.cleared stop_waits s.adapter_list)
      (omega (arith, length-stop_each s.cleared stop_waits s.adapter_list, (run-IsValid q es).1))
      two
