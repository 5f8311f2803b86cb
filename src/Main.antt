-- ===== src/Main.antt =====
-- main.cpp: the service from its constructor to its destructor. What `exec` of QtService does is an
-- argument, as the calls that it makes, with the steps of the threads between them.
mod Examples
use ot_tcp_listener.Prelude.{
  ℕ, ◌+◌, ◌≤◌, true, List, [], ◌∷◌, ◌++◌, map, some, ◌≡◌, refl, ap, ◌∙◌, All, Option, Text, codes,
  length, if◌then◌else◌, arith,
}
use ot_tcp_listener.Prelude.Outcome.{Outcome, ok, ◌>>=◌}
use ot_tcp_listener.NetworkTools.Address.{mask24}
use ot_tcp_listener.Logger.{Logger, file, destroy}
use ot_tcp_listener.Logger.Laws.{write_all, lines, printed_lines, appended}
use ot_tcp_listener.Service.{initial}
use ot_tcp_listener.Service.LogPath.{log_file_name}
use ot_tcp_listener.Service.Create.{create_service, write_all-create_service}
use ot_tcp_listener.Service.Invariant.{start_count}
use ot_tcp_listener.Service.Waits.{Wait}
use ot_tcp_listener.Service.Destroy.{delete_service, TwoSteps, delete_service-run}
use ot_tcp_listener.Service.Process.{Calls, Call, State, up, gone, new_process, run_process}
use ot_tcp_listener.Service.Process.Refines.{event_of}
use ot_tcp_listener.Service.Process.Suitable.{Suitable, all_messages}
use ot_tcp_listener.Service.Process.Told.{run_process-all_messages}

-- How the program ends, with its logger: main returns, a failed start calls exit(EXIT_FAILURE), or
-- a thread is destroyed while it runs.
pub data Exit : Type 0 where
  returned : Logger → Exit
  exited : Logger → Exit
  aborted : Logger → Exit

-- Each message with the date at which it is written.
abbrev pub dated : (ℕ → Text) → ℕ → List Text → List (Text × Text)
dated clock k [] = []
dated clock k (message ∷ messages) = (clock k, message) ∷ dated clock (k + 1) messages

-- The destructor of OtService, or the end by a failed start. The messages of the calls are written
-- here all together: nothing but the logger depends on what was written.
finish : (ℕ → Text) → List Wait → List (List ℕ) → Logger → State → Outcome Exit
finish clock stop_waits waits logger (up p) = do
  l ← write_all logger (dated clock 0 p.messages)
  let deleted = do l' ← destroy l; ok (returned l')
  if delete_service stop_waits waits p.service then deleted else ok (aborted l)
finish clock stop_waits waits logger (gone s) = do
  l ← write_all logger (dated clock 0 s.log)
  ok (exited l)

module _ (c : Calls) (contents : Text → Option Text) (service_folder : Text)
    (clock : ℕ → Text) where
  unfoldable pub main : List Call → List Wait → List (List ℕ) → Outcome Exit
  unfolding finish
  main calls stop_waits waits = do
    let service = create_service c.replace contents service_folder
    s ← run_process c (up (record new_process { service = service.ot_listener })) calls
    finish clock stop_waits waits service.logger s

  no_adapter : (create_service c.replace contents service_folder).ot_listener ≡ initial
  unfolding create_service
  no_adapter = refl

  -- Where inet_pton knows 255.255.255.0, every start finds a suitable card with every call of
  -- libpcap and the system successful, MonitorPcap returns on everything that it could get, and
  -- the destructor has a wait for each start in which the thread that is waited for makes two
  -- steps or more: whatever calls of the service manager come, in whatever order and with whatever
  -- steps of the threads between them and in the waits of the last stop, the program returns from
  -- main with no thread destroyed while it runs, and has added to ot_log.txt, if the logger could
  -- open it, and printed to the standard error by its logger, each line up to its first zero, the
  -- messages of the calls in their order, each with its date: five for a start, which tell the
  -- data of the first suitable card, and one for a pause, a resume and a stop.
  pub main-all_messages :
      (calls : List Call) (stop_waits : List Wait) (waits : List (List ℕ))
      → c.inet_pton (codes "255.255.255.0") ≡ some mask24
      → All (Suitable c) calls
      → start_count (map event_of calls) ≤ length waits
      → All TwoSteps waits
      → let told = dated clock 0 (all_messages c calls) in
        (l : Logger) × (main calls stop_waits waits ≡ ok (returned l))
        × (l.log_file
            ≡ appended (contents (log_file_name c.replace service_folder)) (lines true told))
        × (l.stderr ≡ printed_lines true told)
  unfolding main finish
  main-all_messages calls stop_waits waits pton24 suitable enough two =
      let (p, ends, service, messages, stderr, descriptors) =
        run_process-all_messages c pton24 calls new_process suitable in
      let (l, written, log_file, errors, closed) =
        write_all-create_service c.replace contents service_folder (dated clock 0 p.messages) in
      let deleted = delete_service-run c.thread (map event_of calls) stop_waits waits enough two in
      let dates = ap (dated clock 0) messages in
      (
        l,
        rw (no_adapter, ends, written, service, deleted, closed),
        log_file
            ∙ ap
                (λ ms. appended (contents (log_file_name c.replace service_folder)) (lines true ms))
                dates,
        errors ∙ ap (printed_lines true) dates,
      )
