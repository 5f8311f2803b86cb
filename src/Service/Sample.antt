-- ===== src/Service/Sample.antt =====
-- QThread::start as it is documented.
use ot_tcp_listener.Prelude.{refl}
use ot_tcp_listener.Service.{Place, ended, at_test, at_monitor, at_capture, QThread}

abbrev started : Place → Place
started ended = at_test
started at_test = at_test
started at_monitor = at_monitor
started at_capture = at_capture

abbrev pub documented : QThread
documented = record {
  start = started;
  start-ended = refl;
  start-at_test = refl;
  start-at_monitor = refl;
  start-at_capture = refl;
}
