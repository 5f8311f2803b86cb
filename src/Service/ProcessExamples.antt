-- ===== src/Service/ProcessExamples.antt =====
-- The service from its start to what it sees and prints, on a machine with one card.
use ot_tcp_listener.Prelude.{
  codes, All, arith, false, List, [], ◌∷◌, ◌++◌, map, ◌≡◌, refl, replicate,
}
use ot_tcp_listener.Prelude.Outcome.{ok, ◌>>=◌}
use ot_tcp_listener.Qt.Sample.{sample, sample_splits}
use ot_tcp_listener.Sniffer.{Seen, monitor_pcap, failed, other_type}
use ot_tcp_listener.Sniffer.Observed.{Poll, capture_of, timed_out, heard, failing}
use ot_tcp_listener.Sniffer.Printed.{lines_of, printed}
use ot_tcp_listener.Sniffer.ResponseSample.{response, response-IsResponse, response_clean}
use ot_tcp_listener.Service.Process.Suitable.{Suitable, Returns}
use ot_tcp_listener.Service.Process.Told.{run_process-all_messages}
use ot_tcp_listener.Service.Process.Paused.{Settled, pause-Settled}
use ot_tcp_listener.Service.Process.{
  Call, Process, resumes, steps, starts, pauses, new_process, up, gone, run_process,
}
use ot_tcp_listener.Service.Process.Gone.{start-gone}
use ot_tcp_listener.Sniffer.Setup.{PcapSystem, Setup}
use ot_tcp_listener.Service.Process.Capturing.{rounds_of, seen_in, start-observe_all}
use ot_tcp_listener.Service.Process.Printed.{poll_of, start-printed}
use ot_tcp_listener.Sniffer.SetupSample.{working_pcap}
use ot_tcp_listener.Service.ProcessSample.{stand_ins, card_with, one_card, card_with-IsSuitable}

-- A packet that is neither IPv4 nor ARP, and a call that gives none.
abbrev quiet_traffic : List Poll
quiet_traffic =
    heard (record { len = 60; bytes = replicate 12 0 ++ 0x86 ∷ 0xdd ∷ [] }) ∷ failing 0 ∷ []

start-observe_all_example :
    (run_process stand_ins (up new_process) (starts one_card ∷ rounds_of 0 quiet_traffic) >>= λ s.
    ok (seen_in s))
    ≡ ok (other_type ∷ failed ∷ [])
start-observe_all_example =
    start-observe_all stand_ins refl new_process one_card quiet_traffic
      (card_with-IsSuitable working_pcap) refl

start-printed_example :
    (seen : List Seen) × ((run_process stand_ins
          (up new_process)
          (starts one_card ∷ rounds_of 0 (map poll_of (response ∷ response ∷ [])))
        >>= λ s. ok (seen_in s))
      ≡ ok seen)
    × (printed sample seen ≡ lines_of sample response ++ (lines_of sample response ++ []))
start-printed_example =
    start-printed stand_ins new_process one_card (response ∷ response ∷ []) refl
      (card_with-IsSuitable working_pcap) refl (response-IsResponse, (response-IsResponse, tt))
      sample_splits (response_clean, (response_clean, tt))

-- The filter does not compile.
abbrev broken_pcap : PcapSystem
broken_pcap = record working_pcap { compiled = false }

start-gone_example :
    (s : Setup) × (run_process stand_ins
        (up new_process)
        (starts (card_with broken_pcap) ∷ pauses ∷ [])
      ≡ ok (gone s))
    × (s.stderr ≡ codes "Bad filter - \n" ∷ [])
start-gone_example =
    start-gone stand_ins refl new_process (card_with broken_pcap) (pauses ∷ [])
      (card_with-IsSuitable broken_pcap) refl

-- The service is started, and its thread is past the test of MonitorPcap when it is paused; it gets
-- time for three steps after that.
abbrev started : List Call
started = starts one_card ∷ steps 0 (capture_of (failing 0)) ∷ steps 0 (capture_of (failing 0)) ∷ []

failing-Returns : Returns stand_ins (capture_of (failing 0))
unfolding monitor_pcap
failing-Returns = (failed, refl)

started-Suitable : All (Suitable stand_ins) started
started-Suitable =
    ((card_with-IsSuitable working_pcap, refl), (failing-Returns, (failing-Returns, tt)))

abbrev after_start : Process
after_start = (run_process-all_messages stand_ins refl started new_process started-Suitable).0

start_ends : run_process stand_ins (up new_process) started ≡ ok (up after_start)
start_ends = (run_process-all_messages stand_ins refl started new_process started-Suitable).1

abbrev resumed : List Call
resumed =
    resumes
    ∷ steps 0 (capture_of (failing 0))
    ∷ steps 0 (capture_of timed_out)
    ∷ steps 0 (capture_of timed_out)
    ∷ []

pause-Settled_example :
    Settled after_start (run_process stand_ins (up after_start) (pauses ∷ resumed))
pause-Settled_example =
    pause-Settled stand_ins started resumed after_start start_ends (ground arith)
