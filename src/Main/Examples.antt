-- ===== src/Main/Examples.antt =====
-- The program on a machine with one card: it is started, its thread makes a round, it is paused,
-- resumed and stopped.
use ot_tcp_listener.Prelude.{
  ℕ, true, Option, some, All, List, [], ◌∷◌, ◌≡◌, refl, Text, codes, arith,
}
use ot_tcp_listener.Prelude.Outcome.{ok}
use ot_tcp_listener.Net.{inet_ntoa}
use ot_tcp_listener.Net.Decimal.{to_string}
use ot_tcp_listener.NetworkTools.Clean.{printable, change_tr_characters}
use ot_tcp_listener.NetworkTools.DeviceSample.{has}
use ot_tcp_listener.NetworkTools.Address.{and_mask}
use ot_tcp_listener.Logger.{Logger}
use ot_tcp_listener.Logger.Laws.{lines, printed_lines, appended}
use ot_tcp_listener.Service.Process.{
  Call, starts, pauses, resumes, stops, steps, Process, up, new_process, run_process,
}
use ot_tcp_listener.Sniffer.{Capture, failed, monitor_pcap}
use ot_tcp_listener.Sniffer.Observed.{failing, capture_of}
use ot_tcp_listener.Service.Client.{content}
use ot_tcp_listener.Service.Process.Flags.{
  HasFlags, no_flags, flag_calls, IsRunningThread, run_process-HasFlags,
}
use ot_tcp_listener.Service.Process.Suitable.{Suitable, Returns, all_messages}
use ot_tcp_listener.Service.Process.Told.{run_process-all_messages}
use ot_tcp_listener.Sniffer.SetupSample.{working_pcap}
use ot_tcp_listener.Service.ProcessSample.{stand_ins, one_card, card_with-IsSuitable}
use ot_tcp_listener.Main.{returned, dated, main, main-all_messages}

-- A call of pcap_next_ex that gives no packet.
abbrev quiet : Capture
quiet = capture_of (failing 0)

abbrev life : List Call
life =
    starts one_card ∷ steps 0 quiet ∷ steps 0 quiet ∷ steps 0 quiet ∷ pauses ∷ resumes ∷ stops ∷ []

-- What the log file holds before, in whatever folder, and the date of every message.
abbrev old : Text → Option Text
old name = some (codes "earlier\n")

abbrev clock : ℕ → Text
clock k = codes "01.02.2024 10:00:00 "

abbrev folder : Text
folder = codes "/opt/ot/bin"

-- QString::arg leaves its text alone here.
life_messages :
    all_messages stand_ins life
    ≡ codes
        "Ot Listener Info:\nInterface : eth0\nIp : 192.168.1.77\nMac : 52:54:00:12:34:56\nNetsegment : 192.168.1.0/24"
      ∷ codes "Sniffer started with device %1"
      ∷ codes "Set filter [%1] for Sniffer with device %2"
      ∷ codes "New Adapter [%1] added to sensor."
      ∷ codes "Ot service started..."
      ∷ codes "Ot service paused..."
      ∷ codes "Ot service resumed..."
      ∷ codes "Ot service stopped..."
      ∷ []
unfolding content printable change_tr_characters has inet_ntoa to_string and_mask
life_messages = refl

quiet-Returns : Returns stand_ins quiet
unfolding monitor_pcap
quiet-Returns = (failed, refl)

life-Suitable : All (Suitable stand_ins) life
life-Suitable = (
  ((card_with-IsSuitable working_pcap), refl),
  (quiet-Returns, (quiet-Returns, (quiet-Returns, (tt, (tt, (tt, tt)))))),
)

abbrev after_life : Process
after_life = (run_process-all_messages stand_ins refl life new_process life-Suitable).0

life_ends : run_process stand_ins (up new_process) life ≡ ok (up after_life)
life_ends = (run_process-all_messages stand_ins refl life new_process life-Suitable).1

run_process-HasFlags_example :
    HasFlags (flag_calls no_flags life) after_life.service
    × (p : Process) × (run_process stand_ins (up after_life) (resumes ∷ []) ≡ ok (up p))
    × All IsRunningThread p.service.adapter_list
run_process-HasFlags_example = run_process-HasFlags stand_ins life after_life life_ends

abbrev waits : List (List ℕ)
waits = (2 ∷ []) ∷ []

main-all_messages_example :
    let told = dated clock 0 (all_messages stand_ins life) in
    (l : Logger) × (main stand_ins old folder clock life [] waits ≡ ok (returned l))
    × (l.log_file ≡ appended (some (codes "earlier\n")) (lines true told))
    × (l.stderr ≡ printed_lines true told)
main-all_messages_example =
    main-all_messages stand_ins old folder clock life [] waits refl life-Suitable (ground arith)
      (omega arith, tt)
