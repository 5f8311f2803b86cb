-- ===== src/Service/Process/Gone.antt =====
-- A start on which a call of libpcap or of the system fails.
use ot_tcp_listener.Prelude.{false, List, ◌∷◌, [], ◌++◌, some, ◌≡◌, refl, Text, codes}
use ot_tcp_listener.Prelude.Outcome.{Outcome, ok, fault}
use ot_tcp_listener.NetworkTools.Address.{mask24}
use ot_tcp_listener.NetworkTools.Clean.{printable, change_tr_characters}
use ot_tcp_listener.Sniffer.Setup.{Setup, Ending, returned, exited, set_up}
use ot_tcp_listener.Sniffer.Setup.Ends.{all_succeed, EndsBy, complaints_of, set_up-EndsBy}
use ot_tcp_listener.Sniffer.Sweep.{segment_ip_list-hosts}
use ot_tcp_listener.Service.Client.{content, init_client-first}
use ot_tcp_listener.Service.Startup.{init_listener, create_sniffer, birth_of, start_of, client_of}
use ot_tcp_listener.Service.Process.{
  Calls, World, Call, starts, Process, up, gone, setup_of, after_start, start_process, step_process,
  run_process,
}
use ot_tcp_listener.Service.Process.Suitable.{IsSuitable}

-- The constructor of Sniffer that ends the process.
exits :
    (told : List Text) (s : Setup) (o : Outcome Ending)
    → EndsBy false told s o
    → (s' : Setup) × (o ≡ ok (exited s')) × (s'.stderr ≡ s.stderr ++ told)
exits told s (ok (returned s')) h = absurd h
exits told s (ok (exited s')) h = (s', refl, h)
exits told s (fault e) h = absurd h

module _ (c : Calls) (pton24 : c.inet_pton (codes "255.255.255.0") ≡ some mask24) where
  -- Where inet_pton knows 255.255.255.0 and a start finds a suitable card, but a call of libpcap
  -- or of the system fails, or the mask is 0: the process, in whatever state, ends, whatever calls
  -- follow, with the complaints of the first call that fails behind those on its standard error:
  -- one, or two where get_ipmask fails, for perror and for the missing mask.
  pub start-gone :
      (p : Process) (w : World) (later : List Call)
      → (s : IsSuitable c w) → all_succeed w.pcap ≡ false
      → (ended : Setup) × (run_process c (up p) (starts w ∷ later) ≡ ok (gone ended))
        × (ended.stderr
            ≡ p.stderr
              ++ complaints_of w.pcap
                  (printable (c.to_std_string (change_tr_characters c.replace s.interface.name))))
  unfolding run_process step_process start_process init_listener create_sniffer birth_of start_of
      after_start
  start-gone p w later s fails =
      let clean : Text → Text =
        λ name. printable (c.to_std_string (change_tr_characters c.replace name)) in
      let client = client_of clean p.client s.interface s.entry s.address s.mask in
      let s0 = record (setup_of p) { log = p.messages ++ content client ∷ [] } in
      let told =
        init_client-first c.contains c.replace c.to_std_string c.arg c.inet_pton w.interfaces
          p.client s.interface s.entry s.address s.mask s.first s.address_known s.mask_known in
      let listed =
        segment_ip_list-hosts c.inet_pton s.entry.ip s.address s.octets s.address_known pton24 in
      let ends = set_up-EndsBy c.arg w.pcap client.iface w.storage s0 s.size in
      let (s', set, stderr) =
        exits _ s0 (set_up c.arg w.pcap client.iface w.storage s0) (rw fails at ends) in
      (s', rw (told, listed, set), stderr)
