-- ===== src/Logger/Examples.antt =====
-- Messages to a log file.
use ot_tcp_listener.Prelude.{true, List, [], ◌∷◌, ◌≡◌, refl, Text, codes}
use ot_tcp_listener.Prelude.Outcome.{ok}
use ot_tcp_listener.Net.CString.{c_string}
use ot_tcp_listener.Logger.{Logger, file, line, write}
use ot_tcp_listener.Logger.Laws.{write_all}

abbrev logger : Logger
logger = record { log_file = file (codes "old\n"); show_date = true; debug = true; stderr = [] }

abbrev messages : List (Text × Text)
messages = (codes "1 ", codes "started") ∷ (codes "2 ", codes "stopped") ∷ []

write_all_run :
    write_all logger messages
    ≡ ok (record logger {
      log_file = file (codes "old\n1 started\n2 stopped\n");
      stderr = codes "1 started\n2 stopped\n";
    })
unfolding write line c_string
write_all_run = refl
