-- ===== src/Service/Loop.antt =====
-- The thread of the service against the loop of Sniffer::run.
use ot_tcp_listener.Prelude.{
  ℕ, suc, ◌+◌, Bool, true, false, ◌||◌, not, List, [], ◌∷◌, Bytes, ◌≡◌, refl, sym, arith,
  if◌then◌else◌, Bool-cases, inl, inr,
}
use ot_tcp_listener.Prelude.Outcome.{ok}
use ot_tcp_listener.Qt.{Qt}
use ot_tcp_listener.Sniffer.{
  PcapHeader, Capture, Seen, stopped, failed, too_short, ip, arp, other_type, Turn, dispatch,
  inspect, monitor_pcap, run_loop,
}
use ot_tcp_listener.Service.{ended, at_test, SnifferThread, stop_loop, step_thread}

-- Whether stopLoop is called.
abbrev pub tell : Bool → SnifferThread → SnifferThread
tell true t = stop_loop t
tell false t = t

-- From the test of MonitorPcap on: it returns there where stopLoop is called before, and goes on to
-- pcap_next_ex otherwise.
abbrev pub monitor_steps : Bool → SnifferThread → SnifferThread
monitor_steps true t = step_thread (stop_loop t)
monitor_steps false t = step_thread (step_thread t)

-- The steps of the thread in the rounds of a schedule, with the calls of stopLoop.
abbrev pub follow : List Turn → SnifferThread → SnifferThread
follow [] t = t
follow (u ∷ turns) t =
    follow turns (monitor_steps u.stop_between (step_thread (tell u.stop_before t)))

-- Whether MonitorPcap has asked libpcap for a packet.
abbrev pub has_polled : Seen → Bool
has_polled stopped = false
has_polled failed = true
has_polled too_short = true
has_polled (ip v) = true
has_polled (arp a) = true
has_polled other_type = true

abbrev pub poll_count : List Seen → ℕ
poll_count [] = 0
poll_count (s ∷ seen) = if has_polled s then suc (poll_count seen) else poll_count seen

-- Whether there are fewer results than rounds: the loop was left by its `break`.
abbrev pub is_left : List Seen → List Turn → Bool
is_left [] [] = false
is_left [] (u ∷ turns) = true
is_left (s ∷ seen) [] = false
is_left (s ∷ seen) (u ∷ turns) = is_left seen turns

-- A thread before the test of its loop.
abbrev pub testing : Bool → ℕ → SnifferThread
testing m_stop polls = record { m_stop = m_stop; place = at_test; polls = polls }

abbrev pub finished : ℕ → SnifferThread
finished polls = record { m_stop = true; place = ended; polls = polls }

tell-finished : (b : Bool) (p : ℕ) → tell b (finished p) ≡ finished p
tell-finished true p = refl
tell-finished false p = refl

monitor_steps-finished : (b : Bool) (p : ℕ) → monitor_steps b (finished p) ≡ finished p
unfolding step_thread
monitor_steps-finished true p = refl
monitor_steps-finished false p = refl

follow-finished : (turns : List Turn) (p : ℕ) → follow turns (finished p) ≡ finished p
unfolding step_thread
follow-finished [] p = refl
follow-finished (u ∷ turns) p =
    rw (tell-finished u.stop_before p, monitor_steps-finished u.stop_between p)
      (follow-finished turns p)

module _ (qt : Qt) where
  dispatch_polls :
      (type : ℕ) (h : PcapHeader) (packet : Bytes) (s : Seen)
      → dispatch qt type h packet ≡ ok s
      → has_polled s ≡ true
  unfolding dispatch
  dispatch_polls type h packet s e = ground arith

  pub monitor_polls :
      (b : Bool) (c : Capture) (s : Seen) → monitor_pcap qt b c ≡ ok s → has_polled s ≡ not b
  unfolding monitor_pcap inspect
  monitor_polls b c s e = grind (arith, dispatch_polls)

  -- A round that is not the last: what it saw, and what the rest saw.
  round_ok :
      (m_stop : Bool) (u : Turn) (turns : List Turn) (seen : List Seen) (m_stop' : Bool)
      → (m_stop || u.stop_before) ≡ false
      → run_loop qt m_stop (u ∷ turns) ≡ ok (seen, m_stop')
      → (s : Seen) × (more : List Seen) × (monitor_pcap qt u.stop_between u.capture ≡ ok s)
        × (run_loop qt u.stop_between turns ≡ ok (more, m_stop'))
        × (s ∷ more ≡ seen)
  unfolding run_loop
  round_ok m_stop u turns seen m_stop' n e = ground (arith, e)

  break_ok :
      (m_stop : Bool) (u : Turn) (turns : List Turn) (seen : List Seen) (m_stop' : Bool)
      → (m_stop || u.stop_before) ≡ true
      → run_loop qt m_stop (u ∷ turns) ≡ ok (seen, m_stop')
      → ([] ≡ seen) × (true ≡ m_stop')
  unfolding run_loop
  break_ok m_stop u turns seen m_stop' n e = ground (arith, e)

  end_ok :
      (m_stop m_stop' : Bool) (seen : List Seen)
      → run_loop qt m_stop [] ≡ ok (seen, m_stop')
      → ([] ≡ seen) × (m_stop ≡ m_stop')
  unfolding run_loop
  end_ok m_stop m_stop' seen e = ground (arith, e)

  -- The steps of a round that goes on, and of one that breaks.
  round_steps :
      (m_stop : Bool) (u : Turn) (p : ℕ) (s : Seen)
      → (m_stop || u.stop_before) ≡ false
      → has_polled s ≡ not u.stop_between
      → monitor_steps u.stop_between (step_thread (tell u.stop_before (testing m_stop p)))
        ≡ testing u.stop_between (if has_polled s then p + 1 else p)
  unfolding step_thread
  round_steps m_stop u p s n polled = ground (arith, n, polled)

  break_steps :
      (m_stop : Bool) (u : Turn) (p : ℕ)
      → (m_stop || u.stop_before) ≡ true
      → monitor_steps u.stop_between (step_thread (tell u.stop_before (testing m_stop p)))
        ≡ finished p
  unfolding step_thread
  break_steps m_stop u p y = ground (arith, y)

  -- The thread of the service is the loop of Sniffer::run: where the loop returns over some
  -- rounds, the steps of the thread for its two tests and for what follows them in each round,
  -- with the same calls of stopLoop, lead to the same stop flag and to one poll for each call of
  -- MonitorPcap that was not stopped, and the thread has ended if and only if the loop was left.
  pub run_loop-follow :
      (turns : List Turn) (m_stop m_stop' : Bool) (p : ℕ) (seen : List Seen)
      → run_loop qt m_stop turns ≡ ok (seen, m_stop')
      → follow turns (testing m_stop p) ≡ record {
        m_stop = m_stop';
        place = if is_left seen turns then ended else at_test;
        polls = p + poll_count seen;
      }
  run_loop-follow [] m_stop m_stop' p seen e =
      let (none_seen, same) = end_ok m_stop m_stop' seen e in
      let count : p ≡ p + 0 = omega arith in rw (sym none_seen, sym same, sym count)
  run_loop-follow (u ∷ turns) m_stop m_stop' p seen e =
      elim (Bool-cases (m_stop || u.stop_before)) [
        | inl y ↦
            let (none_seen, told) = break_ok m_stop u turns seen m_stop' y e in
            let count : p ≡ p + 0 = omega arith in
            rw (
              break_steps m_stop u p y,
              follow-finished turns p,
              sym none_seen,
              sym told,
              sym count,
            )
        | inr n ↦
            let (s, more, saw, rest, parts) = round_ok m_stop u turns seen m_stop' n e in
            let polled = monitor_polls u.stop_between u.capture s saw in
            let p' = if has_polled s then p + 1 else p in
            let count : p' + poll_count more ≡ p + poll_count (s ∷ more) = ground arith in
            rw (
              round_steps m_stop u p s n polled,
              run_loop-follow turns u.stop_between m_stop' p' more rest,
              sym parts,
              count,
            )
      ]
