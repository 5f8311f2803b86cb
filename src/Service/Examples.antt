-- ===== src/Service/Examples.antt =====
-- Runs of the service, and the theorems at them.
use ot_tcp_listener.Prelude.{
  ◌+◌, true, List, All, [], ◌∷◌, ◌≡◌, refl, arith, none, false, Text, codes, if◌then◌else◌,
}
use ot_tcp_listener.Service.{
  listener_stop, ended, at_test, initial, start, pause, resume, step_thread, step_at, start_thread,
  adapter_set_pause, Event, starts, resumes, steps, cleared_steps, step, run,
}
use ot_tcp_listener.Service.Sample.{documented}
use ot_tcp_listener.Service.Lifecycle.{polled, capturing}
use ot_tcp_listener.Service.Trace.{rounds}
use ot_tcp_listener.Prelude.Int.{negsuc}
use ot_tcp_listener.Prelude.Outcome.{ok}
use ot_tcp_listener.Qt.Sample.{sample}
use ot_tcp_listener.Sniffer.{Capture, Turn, failed, stopped, run_loop, monitor_pcap}
use ot_tcp_listener.Service.Invariant.{IsValid, thread_count, start_count, run-IsValid}
use ot_tcp_listener.Service.Destroy.{delete_service, delete_adapters, delete_service-run}
use ot_tcp_listener.Service.Loop.{follow, testing, is_left, poll_count, run_loop-follow}
use ot_tcp_listener.Net.CString.{c_string}
use ot_tcp_listener.Service.Waits.{advance, Wait, stop_each, stop_waiting}
use ot_tcp_listener.Service.Waits.Atomic.{IsThreadStep, stop_waiting-run, polled-stop_waiting}
use ot_tcp_listener.Service.LogPath.{log_file_name, find_last_separator}

-- A wait in which the thread that is waited for makes two steps.
abbrev two_waits : Wait
two_waits = record { earlier = []; own = 2; later = [] }

-- A service that was started and whose thread has made three rounds.
abbrev started_rounds : List Event
started_rounds = starts ∷ rounds 3 0

-- It is resumed after a pause, and its thread gets time for nine steps.
abbrev resumed : List Event
resumed = resumes ∷ rounds 3 0

polled-rounds : polled (run documented initial started_rounds) ≡ 3
unfolding run step start step_at step_thread start_thread
polled-rounds = refl

polled-resumed :
    polled (run documented (pause documented (run documented initial started_rounds)) resumed) ≡ 3
unfolding run step start pause resume step_at step_thread start_thread adapter_set_pause
polled-resumed = refl

-- A thread that is past the test of MonitorPcap when its service is stopped; it gets no step in the
-- wait, and one after it.
abbrev in_capture : List Event
in_capture = starts ∷ steps 0 ∷ steps 0 ∷ []

late_polls :
    let s = stop_waiting [] (run documented initial in_capture) in
    (polled s ≡ 0) × (polled (run documented s (cleared_steps 0 ∷ [])) ≡ 1)
unfolding run step start step_at step_thread start_thread stop_waiting stop_each
late_polls = (refl, refl)

polled-stop_waiting_example :
    let s = stop_waiting [] (run documented initial in_capture) in
    let later = run documented s (cleared_steps 0 ∷ []) in
    (s.adapter_list ≡ []) × (polled later + capturing later ≡ polled s + capturing s)
polled-stop_waiting_example =
    polled-stop_waiting documented in_capture [] (cleared_steps 0 ∷ []) (ground arith)

run-IsValid_example :
    IsValid (run documented initial started_rounds)
    × (thread_count (run documented initial started_rounds) ≡ start_count started_rounds)
run-IsValid_example = run-IsValid documented started_rounds

delete_service-run_example :
    delete_service (two_waits ∷ []) ((2 ∷ []) ∷ []) (run documented initial started_rounds) ≡ true
delete_service-run_example =
    delete_service-run documented started_rounds (two_waits ∷ []) ((2 ∷ []) ∷ []) (omega arith)
      (ground arith)

stop_waiting-run_example :
    (before after : List Event) × All IsThreadStep before
    × All IsThreadStep after
    × (stop_waiting (two_waits ∷ []) (run documented initial started_rounds)
        ≡ run documented
            (listener_stop (run documented (run documented initial started_rounds) before))
            after)
stop_waiting-run_example =
    stop_waiting-run documented (two_waits ∷ []) (run documented initial started_rounds)

-- A thread that is at its test when its service is destroyed, and gets no time.
delete_service_running : delete_service [] [] (run documented initial started_rounds) ≡ false
unfolding run step start step_at step_thread start_thread delete_service delete_adapters advance
    stop_waiting stop_each
delete_service_running = refl

-- A read that fails, one before which stopLoop is called, and a round that is not reached.
abbrev no_packet : Capture
no_packet = record { packet_count = negsuc 0; header = none; packet = none }

abbrev turns : List Turn
turns =
    record { stop_before = false; stop_between = false; capture = no_packet }
    ∷ record { stop_before = false; stop_between = true; capture = no_packet }
    ∷ record { stop_before = false; stop_between = false; capture = no_packet }
    ∷ []

turns_run : run_loop sample false turns ≡ ok (failed ∷ stopped ∷ [], true)
unfolding run_loop monitor_pcap
turns_run = refl

run_loop-follow_example : follow turns (testing false 7) ≡ record {
  m_stop = true;
  place = if is_left (failed ∷ stopped ∷ []) turns then ended else at_test;
  polls = 7 + poll_count (failed ∷ stopped ∷ []);
}
run_loop-follow_example =
    run_loop-follow sample turns false true 7 (failed ∷ stopped ∷ []) turns_run

-- A replacement in a path that has no backslash, and a log file that holds a line.
abbrev same_path : Text → Text → Text → Text
same_path path before after = path

abbrev old_log : Text → Text
old_log name = codes "old\n"

abbrev folder : Text
folder = codes "/opt/ot/otlistener"

abbrev two_messages : List (Text × Text)
two_messages = (codes "d1 ", codes "one") ∷ (codes "d2 ", codes "two") ∷ []

log_file_name_run : log_file_name same_path folder ≡ codes "/opt/ot/ot_log.txt"
unfolding log_file_name find_last_separator c_string
log_file_name_run = refl
