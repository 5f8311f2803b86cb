-- ===== src/Sniffer/SetupSample.antt =====
-- A set-up of a Sniffer as concrete data.
use ot_tcp_listener.Prelude.{true, false, [], some}
use ot_tcp_listener.Sniffer.Setup.{PcapSystem, Setup}

-- A system on which every call succeeds.
abbrev pub working_pcap : PcapSystem
working_pcap = record {
  live = true;
  non_blocking = true;
  datalink = true;
  mask_socket = true;
  netmask = some 0xffffff;
  compiled = true;
  filter_set = true;
  error_buffer = [];
  perror_text = [];
  geterr_text = [];
  mask_error = [];
}

abbrev pub fresh_setup : Setup
fresh_setup = record { handle = false; stderr = []; log = []; descriptors = 0 }
