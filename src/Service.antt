-- ===== src/Service.antt =====
-- otservice.cpp, otlistener.cpp, adapter.cpp and the thread side of sniffer.cpp: what the service's
-- calls do to the sniffer threads. QThread is not part of the repository: `start` is a parameter,
-- `quit` ends an event loop, which Sniffer::run has not, and `wait` returns
-- after half a second at the latest, whether the thread has ended or not. So the rounds of the
-- threads are steps of their own, in any order with the calls.
pub mod Lifecycle
pub mod Trace
pub mod Client
pub mod LogPath
pub mod Invariant
pub mod Destroy
pub mod Loop
pub mod Create
pub mod Waits
pub mod Startup
pub mod Process
pub mod Sample
pub mod ProcessSample
mod Examples
mod StartupExamples
mod ProcessExamples
use ot_tcp_listener.Prelude.{
  ℕ, zero, suc, ◌+◌, Bool, true, false, ◌&&◌, not, List, [], ◌∷◌, ◌++◌, map, String, Option, none,
  some, ◌≡◌, if◌then◌else◌, length,
}

-- A Sniffer: the flag of stopLoop, and where its thread is.
pub data Place : Type 0 where
  -- not started, or run has returned
  ended : Place
  -- at the test of `m_stop` in the loop of run
  at_test : Place
  -- past the test, before MonitorPcap
  at_monitor : Place
  -- past the test of `m_stop` in MonitorPcap, before pcap_next_ex
  at_capture : Place

pub record SnifferThread : Type 0 where
  pub m_stop : Bool
  pub place : Place
  -- how many times MonitorPcap has asked libpcap for a packet
  pub polls : ℕ

-- Sniffer::stopLoop
abbrev pub stop_loop : SnifferThread → SnifferThread
stop_loop t = record t { m_stop = true }

-- QThread::start, by the place that it leaves a thread at. A thread that has not been started, or
-- whose run has returned, begins with run; one that runs is left alone.
pub record QThread : Type 0 where
  pub start : Place → Place
  pub start-ended : start ended ≡ at_test
  pub start-at_test : start at_test ≡ at_test
  pub start-at_monitor : start at_monitor ≡ at_monitor
  pub start-at_capture : start at_capture ≡ at_capture

unfoldable pub start_thread : QThread → SnifferThread → SnifferThread
start_thread q t = record t { place = q.start t.place }

-- The constructor of Adapter: a new Sniffer, whose `handle` StartPcap has set, is started.
abbrev pub new_adapter : QThread → SnifferThread
new_adapter q = start_thread q (record { m_stop = false; place = ended; polls = 0 })

-- Adapter::stopLoop, and the destructor: stopLoop, then quit and wait, which change nothing here.
abbrev pub adapter_stop_loop : SnifferThread → SnifferThread
adapter_stop_loop = stop_loop

-- Adapter::setPause; `sniffer` is set.
unfoldable pub adapter_set_pause : QThread → Bool → SnifferThread → SnifferThread
adapter_set_pause q true t = stop_loop t
adapter_set_pause q false t = start_thread q t

-- The test of `m_stop` in MonitorPcap.
abbrev monitor_test : SnifferThread → SnifferThread
monitor_test t = record t { place = if t.m_stop then at_test else at_capture }

-- What follows it there, from pcap_next_ex on.
abbrev capture_packet : SnifferThread → SnifferThread
capture_packet t = record t { place = at_test; polls = t.polls + 1 }

-- One step of the thread: the test of the loop, that of MonitorPcap, or the rest of MonitorPcap.
-- stopLoop may be called between any two of them.
move : Place → SnifferThread → SnifferThread
move ended t = t
move at_test t = record t { place = if t.m_stop then ended else at_monitor }
move at_monitor t = monitor_test t
move at_capture t = capture_packet t

unfoldable pub step_thread : SnifferThread → SnifferThread
unfolding move
step_thread t = move t.place t

-- An OtListener with the log of the service: the adapters of `adapterList`, those that stop() has
-- cleared from it, which live on as children of the listener, and the messages of the service.
pub record OtService : Type 0 where
  pub adapter_list : List SnifferThread
  pub cleared : List SnifferThread
  pub messages : List String

abbrev pub initial : OtService
initial = record { adapter_list = []; cleared = []; messages = [] }

-- OtListener::init as far as the adapters go, OtListener::stop and OtListener::setPause.
abbrev pub listener_init : QThread → OtService → OtService
listener_init q s = record s { adapter_list = s.adapter_list ++ new_adapter q ∷ [] }

abbrev pub listener_stop : OtService → OtService
listener_stop s = record s {
  adapter_list = [];
  cleared = s.cleared ++ map adapter_stop_loop s.adapter_list;
}

abbrev pub listener_set_pause : QThread → Bool → OtService → OtService
listener_set_pause q pause s = record s {
  adapter_list = map (adapter_set_pause q pause) s.adapter_list;
}

abbrev pub log : String → OtService → OtService
log message s = record s { messages = s.messages ++ message ∷ [] }

-- OtService::start, pause, resume and stop.
unfoldable pub start : QThread → OtService → OtService
start q s = log "Ot service started..." (listener_init q s)

unfoldable pub pause : QThread → OtService → OtService
pause q s = log "Ot service paused..." (listener_set_pause q true s)

unfoldable pub resume : QThread → OtService → OtService
resume q s = log "Ot service resumed..." (listener_set_pause q false s)

unfoldable pub stop : OtService → OtService
stop s = log "Ot service stopped..." (listener_stop s)

-- The step of the thread at a place of a list.
unfoldable pub step_at : ℕ → List SnifferThread → List SnifferThread
step_at i [] = []
step_at zero (t ∷ ts) = step_thread t ∷ ts
step_at (suc i) (t ∷ ts) = t ∷ step_at i ts

-- What happens to a service: a call of the service manager, or a step of a thread.
pub data Event : Type 0 where
  starts : Event
  pauses : Event
  resumes : Event
  stops : Event
  steps : ℕ → Event
  cleared_steps : ℕ → Event

unfoldable pub step : QThread → OtService → Event → OtService
step q s starts = start q s
step q s pauses = pause q s
step q s resumes = resume q s
step q s stops = stop s
step q s (steps i) = record s { adapter_list = step_at i s.adapter_list }
step q s (cleared_steps i) = record s { cleared = step_at i s.cleared }

unfoldable pub run : QThread → OtService → List Event → OtService
run q s [] = s
run q s (e ∷ es) = run q (step q s e) es
