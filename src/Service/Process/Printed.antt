-- ===== src/Service/Process/Printed.antt =====
-- From the start of the service to the lines that it prints.
use ot_tcp_listener.Prelude.{
  true, List, [], ◌∷◌, ◌++◌, map, some, ◌≡◌, refl, ap, ◌∙◌, All, Text, codes, length, arith,
}
use ot_tcp_listener.Prelude.Outcome.{ok, ◌>>=◌, >>=-eq-ok}
use ot_tcp_listener.NetworkTools.Address.{mask24}
use ot_tcp_listener.Sniffer.{Seen}
use ot_tcp_listener.Sniffer.Frames.{frame_bytes}
use ot_tcp_listener.Sniffer.Observed.{Poll, heard, round_of, observe_all, run-observe_all}
use ot_tcp_listener.Sniffer.Session.{Response, IsResponse}
use ot_tcp_listener.Sniffer.Session
use ot_tcp_listener.Sniffer.Printed.{
  NoSemicolon, response_pieces, lines_of, printed, flat, run-printed,
}
use ot_tcp_listener.Sniffer.Setup.Ends.{all_succeed}
use ot_tcp_listener.Service.Process.{Calls, World, starts, Process, up, run_process}
use ot_tcp_listener.Service.Process.Suitable.{IsSuitable}
use ot_tcp_listener.Service.Process.Capturing.{rounds_of, seen_in, start-observe_all}

-- The frame of a response, captured whole.
abbrev pub poll_of : Response → Poll
poll_of r = heard (record { len = length (frame_bytes r.frame); bytes = frame_bytes r.frame })

rounds-poll_of : (rs : List Response) → map Session.heard rs ≡ map round_of (map poll_of rs)
rounds-poll_of [] = refl
rounds-poll_of (r ∷ rs) = ap (◌∷◌ (Session.heard r)) (rounds-poll_of rs)

module _ (c : Calls) where
  -- Where inet_pton knows 255.255.255.0, the start of the service finds a suitable card with every
  -- call of libpcap and the system successful, QString::split undoes QStringList::join on texts
  -- with no semicolon, and no text of the responses has one: when a process, in whatever state, is
  -- started and its new thread makes a round for each of some well-formed IPv4 frames that are
  -- captured whole, each from or to the Modbus port and with one unit that answers a read of four
  -- or more registers, what the thread sees prints for each frame, in order, its addresses, ports,
  -- type and size, and one line each for the transaction, the length, the bytes, the function and
  -- every register, numbered from 0.
  pub start-printed :
      (p : Process) (w : World) (rs : List Response)
      → c.inet_pton (codes "255.255.255.0") ≡ some mask24
      → IsSuitable c w
      → all_succeed w.pcap ≡ true
      → All IsResponse rs
      → ((x : Text) (xs : List Text)
          → All NoSemicolon (x ∷ xs)
          → c.qt.split (c.qt.join (x ∷ xs) (codes ";")) (codes ";") ≡ x ∷ xs)
      → All (λ r. All NoSemicolon (response_pieces c.qt r)) rs
      → (seen : List Seen) × ((run_process c
              (up p)
              (starts w ∷ rounds_of (length p.service.adapter_list) (map poll_of rs))
            >>= λ s. ok (seen_in s))
          ≡ ok (p.seen ++ seen))
        × (printed c.qt seen ≡ flat (map (lines_of c.qt) rs))
  start-printed p w rs pton24 suitable calls responses splits clean =
      let (seen, ran, lines) = run-printed c.qt rs responses splits clean in
      let (seen', all, same) =
        >>=-eq-ok (observe_all c.qt (map poll_of rs)) _
          (rw (rounds-poll_of rs, run-observe_all c.qt (map poll_of rs)) at ran) in
      let told : seen' ≡ seen = ground (arith, same) in
      (seen, start-observe_all c pton24 p w (map poll_of rs) suitable calls ∙ rw (all, told), lines)
