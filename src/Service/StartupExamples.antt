-- ===== src/Service/StartupExamples.antt =====
-- The start of an adapter on a machine with one card, at concrete answers of the system.
use ot_tcp_listener.Prelude.{[], ◌∷◌, ◌≡◌, refl, Text, replicate, arith}
use ot_tcp_listener.Prelude.Outcome.{ok}
use ot_tcp_listener.NetworkTools.Address.{mask24}
use ot_tcp_listener.NetworkTools.Clean.{printable, change_tr_characters}
use ot_tcp_listener.NetworkTools.DeviceSample.{has, lo, eth0_entry, eth0}
use ot_tcp_listener.Sniffer.SetupSample.{working_pcap, fresh_setup}
use ot_tcp_listener.Sniffer.Sweep.{hosts}
use ot_tcp_listener.Service.Sample.{documented}
use ot_tcp_listener.Service.ProcessSample.{host, same_text, pton, keep_text, same}
use ot_tcp_listener.Service.Client.{new_client}
use ot_tcp_listener.Service.Startup.{
  Running, running, init_listener, client_of, IsRunning, init_listener-IsRunning,
}

init_listener-IsRunning_example :
    let clean : Text → Text = λ name. printable (same (change_tr_characters keep_text name)) in
    (r : Running) × (init_listener pton same_text working_pcap documented has keep_text same
        (lo ∷ eth0 ∷ [])
        new_client
        (replicate 16 0)
        fresh_setup
      ≡ ok (running r))
    × IsRunning
        (client_of clean new_client eth0 eth0_entry host mask24)
        (hosts host 256 0)
        fresh_setup
        r
unfolding has
init_listener-IsRunning_example =
    init_listener-IsRunning documented has keep_text same pton same_text working_pcap
      (lo ∷ eth0 ∷ []) new_client (replicate 16 0) fresh_setup eth0 eth0_entry host mask24 refl refl
      refl refl (omega arith, omega arith, omega arith, omega arith) refl (omega arith)
