-- ===== src/Sniffer/Printed.antt =====
-- What a run of Sniffer::run over a session prints: from the bytes of the frames to the lines.
use ot_tcp_listener.Prelude.{
  ◌+◌, Bool, not, ◌&&◌, ◌==◌, arith, true, false, List, [], ◌∷◌, ◌++◌, map, ◌≡◌, ◌≢◌, refl, All,
  Text, codes, length,
}
use ot_tcp_listener.Prelude.Int.{pos, sub_ℕ}
use ot_tcp_listener.Prelude.Outcome.{ok}
use ot_tcp_listener.Qt.{Qt}
use ot_tcp_listener.Net.{inet_ntoa, ether_ntoa}
use ot_tcp_listener.Modbus.{function_name}
use ot_tcp_listener.Modbus.Registers.{register_texts}
use ot_tcp_listener.Sniffer.{Seen, ip, run}
use ot_tcp_listener.Sniffer.Ip.{modbus_packet, report_lines}
use ot_tcp_listener.Sniffer.Fields.{type_text}
use ot_tcp_listener.Sniffer.Frames.{frame_bytes}
use ot_tcp_listener.Sniffer.Session.{Response, IsResponse, heard, report_of, run-heard}

abbrev pub NoSemicolon : Text → Type 0
NoSemicolon t = All (λ c. c ≢ b';') t

abbrev pub has_no_semicolon : Text → Bool
has_no_semicolon [] = true
has_no_semicolon (c ∷ t) = not (c == b';') && has_no_semicolon t

abbrev pub have_no_semicolon : List Text → Bool
have_no_semicolon [] = true
have_no_semicolon (t ∷ ts) = has_no_semicolon t && have_no_semicolon ts

has_no_semicolon-NoSemicolon : (t : Text) → has_no_semicolon t ≡ true → NoSemicolon t
has_no_semicolon-NoSemicolon [] h = tt
has_no_semicolon-NoSemicolon (c ∷ t) h =
    (λ e. ground (arith, h, e), has_no_semicolon-NoSemicolon t (ground (arith, h)))

-- The test for such texts.
pub have_no_semicolon-All : (ts : List Text) → have_no_semicolon ts ≡ true → All NoSemicolon ts
have_no_semicolon-All [] h = tt
have_no_semicolon-All (t ∷ ts) h = (
  has_no_semicolon-NoSemicolon t (ground (arith, h)),
  have_no_semicolon-All ts (ground (arith, h)),
)

abbrev pub flat : List (List (List Text)) → List (List Text)
flat [] = []
flat (l ∷ ls) = l ++ flat ls

module _ (qt : Qt) where
  -- The texts of a response: transaction, length, bytes, function, and one for each register.
  abbrev pub response_pieces : Response → List Text
  response_pieces r =
      qt.arg (codes "Transaction Id:%1") (qt.number (pos r.answer.transaction))
      ∷ qt.arg (codes "Lenght:%1") (qt.number (sub_ℕ (length r.answer.pdu + 1) 1))
      ∷ qt.arg (codes "Hex:%1") (qt.to_hex r.answer.pdu b':')
      ∷ (codes "Function:" ++ function_name r.function)
      ∷ register_texts qt 0 0 r.registers

  -- The lines for a response, each by the texts that are streamed to qDebug.
  abbrev pub lines_of : Response → List (List Text)
  lines_of r =
      let f = r.frame in
      (codes "Source Ip" ∷ codes "\t" ∷ inet_ntoa f.ip.ip_src ∷ [])
      ∷ (codes "Dest Ip" ∷ codes "\t" ∷ inet_ntoa f.ip.ip_dst ∷ [])
      ∷ (codes "Source Mac" ∷ codes "\t" ∷ ether_ntoa f.ethernet.ether_shost ∷ [])
      ∷ (codes "Dest Mac" ∷ codes "\t" ∷ ether_ntoa f.ethernet.ether_dhost ∷ [])
      ∷ (codes "Source Port" ∷ codes "\t" ∷ qt.number (pos f.tcp.th_sport) ∷ [])
      ∷ (codes "Dest Port" ∷ codes "\t" ∷ qt.number (pos f.tcp.th_dport) ∷ [])
      ∷ (codes "Packet Type" ∷ codes "\t" ∷ type_text f.tcp.th_sport f.tcp.th_dport ∷ [])
      ∷ (codes "Packet Lenght" ∷ codes "\t" ∷ qt.number (pos (length (frame_bytes f))) ∷ [])
      ∷ (map (λ (piece : Text). codes "\t" ∷ piece ∷ []) (response_pieces r)
          ++ (codes "" ∷ []) ∷ [])

  -- The lines of the reports among some results.
  abbrev pub printed : List Seen → List (List Text)
  printed [] = []
  printed (ip (modbus_packet r) ∷ seen) = report_lines qt r ++ printed seen
  printed (_ ∷ seen) = printed seen

  -- A text that is joined already may be joined with others before it.
  join-join :
      (a b c y : Text) (ys : List Text) (sep : Text)
      → qt.join (a ∷ b ∷ c ∷ qt.join (y ∷ ys) sep ∷ []) sep ≡ qt.join (a ∷ b ∷ c ∷ y ∷ ys) sep
  join-join a b c y ys sep =
      let j = qt.join (y ∷ ys) sep in
      rw (
        qt.join-cons a b (c ∷ j ∷ []) sep,
        qt.join-cons b c (j ∷ []) sep,
        qt.join-cons c j [] sep,
        qt.join-singleton j sep,
        qt.join-cons a b (c ∷ y ∷ ys) sep,
        qt.join-cons b c (y ∷ ys) sep,
        qt.join-cons c y ys sep,
      )

  printed-report_of :
      ((x : Text) (xs : List Text)
        → All NoSemicolon (x ∷ xs)
        → qt.split (qt.join (x ∷ xs) (codes ";")) (codes ";") ≡ x ∷ xs)
      → (rs : List Response) → All (λ r. All NoSemicolon (response_pieces r)) rs
      → printed (map (report_of qt) rs) ≡ flat (map lines_of rs)
  unfolding report_lines
  printed-report_of splits [] clean = refl
  printed-report_of splits (r ∷ rs) clean = rw (
    join-join _ _ _ _ (register_texts qt 0 0 r.registers) (codes ";"),
    splits _ _ clean.0,
    printed-report_of splits rs clean.1,
  )

  -- Where QString::split undoes QStringList::join on texts with no semicolon, and no text of the
  -- responses has one: over a session of well-formed IPv4 frames that are captured whole, each
  -- from or to the Modbus port and with one unit that answers a read of four or more registers, a
  -- run of Sniffer::run prints for each frame, in order, its addresses, ports, type and size, and
  -- one line each for the transaction, the length, the bytes, the function and every register,
  -- numbered from 0.
  pub run-printed :
      (rs : List Response)
      → All IsResponse rs
      → ((x : Text) (xs : List Text)
          → All NoSemicolon (x ∷ xs)
          → qt.split (qt.join (x ∷ xs) (codes ";")) (codes ";") ≡ x ∷ xs)
      → All (λ r. All NoSemicolon (response_pieces r)) rs
      → (seen : List Seen) × (run qt true false (map heard rs) ≡ ok (seen, false))
        × (printed seen ≡ flat (map lines_of rs))
  run-printed rs h splits clean =
      (map (report_of qt) rs, run-heard qt rs h, printed-report_of splits rs clean)
