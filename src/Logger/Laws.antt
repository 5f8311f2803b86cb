-- ===== src/Logger/Laws.antt =====
-- What a sequence of messages leaves in the log file and on the standard error.
use ot_tcp_listener.Prelude.{
  Bool, true, Option, none, some, List, [], ◌∷◌, ◌++◌, ◌≡◌, refl, Text, append_assoc, append-nil,
}
use ot_tcp_listener.Prelude.Outcome.{Outcome, ok, fault, dangling, ◌>>=◌}
use ot_tcp_listener.Net.CString.{c_string}
use ot_tcp_listener.Logger.{Logger, LogFile, not_open, file, create, line, write}

-- The messages in their order, each with the date of its call.
abbrev pub write_all : Logger → List (Text × Text) → Outcome Logger
write_all l [] = ok l
write_all l ((now, value) ∷ more) = do l' ← write now l value; write_all l' more

abbrev pub lines : Bool → List (Text × Text) → Text
lines show_date [] = []
lines show_date ((now, value) ∷ more) = line show_date now value ++ lines show_date more

-- The lines as `%s` prints them, each up to its first zero.
abbrev pub printed_lines : Bool → List (Text × Text) → Text
printed_lines show_date [] = []
printed_lines show_date ((now, value) ∷ more) =
    c_string (line show_date now value) ++ printed_lines show_date more

-- A file that was opened with some contents, or that could not be opened, and a text for it.
abbrev pub appended : Option Text → Text → LogFile
appended none text = not_open
appended (some contents) text = file (contents ++ text)

write_opened :
    (now value : Text) (l : Logger) (contents : Option Text) (before : Text)
    → l.debug ≡ true
    → l.log_file ≡ appended contents before
    → write now l value
      ≡ ok (record l {
        log_file = appended contents (before ++ line l.show_date now value);
        stderr = l.stderr ++ c_string (line l.show_date now value);
      })
unfolding write
write_opened now value l none before d e = rw (e, d) refl
write_opened now value l (some contents) before d e =
    rw (e, d, append_assoc contents before (line l.show_date now value)) refl

-- A logger that has a QFile, with debugging on, appends every message of a sequence in order: to
-- the file if it could be opened, and to the standard error always, up to its first zero.
pub write_all_opened :
    (messages : List (Text × Text)) (l : Logger) (contents : Option Text) (before : Text)
    → l.debug ≡ true
    → l.log_file ≡ appended contents before
    → write_all l messages
      ≡ ok (record l {
        log_file = appended contents (before ++ lines l.show_date messages);
        stderr = l.stderr ++ printed_lines l.show_date messages;
      })
write_all_opened [] l contents before d e = rw (append-nil before, append-nil l.stderr, ← e) refl
write_all_opened ((now, value) ∷ more) l contents before d e =
    let text = line l.show_date now value in
    let l' = record l {
      log_file = appended contents (before ++ text);
      stderr = l.stderr ++ c_string text;
    } in
    rw
      (
        write_opened now value l contents before d e,
        ← append_assoc before text (lines l.show_date more),
        ← append_assoc l.stderr (c_string text) (printed_lines l.show_date more),
      )
      (write_all_opened more l' contents (before ++ text) d refl)

-- A logger that was made with no file name has an uninitialised pointer, and its first message
-- follows it.
pub write_unnamed :
    (contents : Option Text) (now value : Text) (show_date debug : Bool)
    → write now (create [] contents show_date debug) value ≡ fault dangling
unfolding write create
write_unnamed contents now value show_date debug = refl
