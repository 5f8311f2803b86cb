-- ===== src/Sniffer/Loop.antt =====
-- The loop of Sniffer::run.
use ot_tcp_listener.Prelude.{Bool, true, ◌||◌, List, [], ◌∷◌, ◌++◌, ◌≡◌, refl, arith}
use ot_tcp_listener.Prelude.Outcome.{ok}
use ot_tcp_listener.Qt.{Qt}
use ot_tcp_listener.Sniffer.{Turn, run_loop}

module _ (qt : Qt) where
  -- Once `m_stop` is set the loop ends at once, whatever is captured: nothing sets it back.
  pub run_loop_stopped : (turns : List Turn) → run_loop qt true turns ≡ ok ([], true)
  unfolding run_loop
  run_loop_stopped [] = refl
  run_loop_stopped (t ∷ turns) = refl

  -- What would be captured in the rounds after the one in which stopLoop is called makes no
  -- difference to the loop of Sniffer::run.
  pub run_loop_stop :
      (m_stop : Bool) (before : List Turn) (t : Turn) (later later' : List Turn)
      → (t.stop_before || t.stop_between) ≡ true
      → run_loop qt m_stop (before ++ t ∷ later) ≡ run_loop qt m_stop (before ++ t ∷ later')
  unfolding run_loop
  run_loop_stop m_stop [] t later later' stop =
      ground (arith, run_loop_stopped later, run_loop_stopped later')
  run_loop_stop m_stop (u ∷ before) t later later' stop =
      ground (arith, run_loop_stop u.stop_between before t later later' stop)
