-- ===== src/Service/Process.antt =====
-- OtService::start, pause, resume and stop on the whole process: the client data, the threads, the
-- log, the standard error and the descriptors. The steps of the threads come between the calls.
pub mod Refines
pub mod Suitable
pub mod Told
pub mod Gone
pub mod Paused
pub mod Flags
pub mod Capturing
pub mod Printed
use ot_tcp_listener.Prelude.{
  ℕ, zero, suc, Bool, false, List, [], ◌∷◌, ◌++◌, Option, Text, String, codes, Bytes, if◌then◌else◌,
}
use ot_tcp_listener.Prelude.Outcome.{Outcome, ok, ◌>>=◌}
use ot_tcp_listener.Net.{Ip}
use ot_tcp_listener.NetworkTools.Device.{NetworkInterface}
use ot_tcp_listener.Sniffer.Setup.{PcapSystem, Setup}
use ot_tcp_listener.Qt.{Qt}
use ot_tcp_listener.Sniffer.{Capture, Seen, stopped, monitor_pcap}
use ot_tcp_listener.Service.{
  QThread, SnifferThread, Place, ended, at_test, at_monitor, at_capture, OtService, initial, log,
  Event, step,
}
use ot_tcp_listener.Service
use ot_tcp_listener.Service.Client.{OtClient, new_client}
use ot_tcp_listener.Service.Startup.{Start, running, never_started, init_listener}

-- The functions of Qt and of the C library that a start uses.
pub record Calls : Type 0 where
  pub qt : Qt
  pub thread : QThread
  pub contains : Text → Text → Bool
  pub replace : Text → Text → Text → Text
  pub to_std_string : Text → Text
  pub arg : Text → Text → Text
  pub inet_pton : Text → Option Ip

-- What a start finds: the interfaces, what the pointer to the interface's name points into, and
-- what libpcap and the system give.
pub record World : Type 0 where
  pub interfaces : List NetworkInterface
  pub storage : Bytes
  pub pcap : PcapSystem

-- A call of the service manager, or a step of a thread, with what pcap_next_ex gives if the step
-- gets to it.
pub data Call : Type 0 where
  starts : World → Call
  pauses : Call
  resumes : Call
  stops : Call
  steps : ℕ → Capture → Call
  cleared_steps : ℕ → Capture → Call

pub record Process : Type 0 where
  pub client : OtClient
  pub service : OtService
  pub messages : List Text
  -- how the calls of MonitorPcap have ended
  pub seen : List Seen
  pub stderr : List Text
  pub descriptors : ℕ

-- The process goes on, or a failed start has ended it.
pub data State : Type 0 where
  up : Process → State
  gone : Setup → State

-- What the constructor of OtService leaves.
abbrev pub new_process : Process
new_process = record {
  client = new_client;
  service = initial;
  messages = [];
  seen = [];
  stderr = [];
  descriptors = 0;
}

-- The new Sniffer has no handle yet.
abbrev pub setup_of : Process → Setup
setup_of p = record {
  handle = false;
  stderr = p.stderr;
  log = p.messages;
  descriptors = p.descriptors;
}

-- What follows OtListener::init.
unfoldable pub after_start : Process → Start → State
after_start p (running r) = up (record {
  client = r.client;
  service =
      log "Ot service started..."
        (record p.service { adapter_list = p.service.adapter_list ++ r.thread ∷ [] });
  messages = r.setup.log ++ codes "Ot service started..." ∷ [];
  seen = p.seen;
  stderr = r.setup.stderr;
  descriptors = r.setup.descriptors;
})
after_start p (never_started s) = gone s

-- A call that changes the threads, with the message that it writes at its end.
abbrev tell_change : Process → OtService → Text → Outcome State
tell_change p service message =
    ok (up (record p { service = service; messages = p.messages ++ message ∷ [] }))

module _ (c : Calls) where
  -- What a step of a thread sees, by the place that it is at: MonitorPcap returns at its test, or goes
  -- on with `m_stop` found false, whatever it is by then.
  abbrev pub monitor_place : Place → Bool → Capture → Outcome (List Seen)
  monitor_place ended m_stop capture = ok []
  monitor_place at_test m_stop capture = ok []
  monitor_place at_monitor m_stop capture = ok (if m_stop then stopped ∷ [] else [])
  monitor_place at_capture m_stop capture = do
    seen ← monitor_pcap c.qt false capture
    ok (seen ∷ [])

  unfoldable pub monitor_at : ℕ → List SnifferThread → Capture → Outcome (List Seen)
  monitor_at i [] capture = ok []
  monitor_at zero (t ∷ ts) capture = monitor_place t.place t.m_stop capture
  monitor_at (suc i) (t ∷ ts) capture = monitor_at i ts capture

  -- A step of the thread at a place of one of the two lists.
  abbrev step_and_monitor : Process → Event → ℕ → List SnifferThread → Capture → Outcome State
  step_and_monitor p e i ts capture = do
    seen ← monitor_at i ts capture
    ok (up (record p { service = step c.thread p.service e; seen = p.seen ++ seen }))

  -- OtService::start
  unfoldable pub start_process : Process → World → Outcome State
  unfolding after_start
  start_process p w = do
    start ←
        init_listener c.inet_pton c.arg w.pcap c.thread c.contains c.replace c.to_std_string
          w.interfaces p.client w.storage (setup_of p)
    ok (after_start p start)

  unfoldable pub step_process : Process → Call → Outcome State
  step_process p (starts w) = start_process p w
  step_process p pauses =
      tell_change p (Service.pause c.thread p.service) (codes "Ot service paused...")
  step_process p resumes =
      tell_change p (Service.resume c.thread p.service) (codes "Ot service resumed...")
  step_process p stops = tell_change p (Service.stop p.service) (codes "Ot service stopped...")
  step_process p (steps i capture) =
      step_and_monitor p (Event.steps i) i p.service.adapter_list capture
  step_process p (cleared_steps i capture) =
      step_and_monitor p (Event.cleared_steps i) i p.service.cleared capture

  -- A process that has ended gets no further call.
  unfoldable pub run_process : State → List Call → Outcome State
  run_process (gone s) calls = ok (gone s)
  run_process (up p) [] = ok (up p)
  run_process (up p) (call ∷ calls) = do s ← step_process p call; run_process s calls
