-- ===== src/Logger.antt =====
-- logger.h and logger.cpp: the class Logger. The date is what QDateTime gives at the call.
pub mod Laws
mod Examples
use ot_tcp_listener.Prelude.{
  ℕ, Bool, true, false, List, [], ◌∷◌, ◌++◌, Option, none, some, Text, codes, if◌then◌else◌,
}
use ot_tcp_listener.Prelude.Outcome.{Outcome, ok, fault, dangling}
use ot_tcp_listener.Net.CString.{c_string}

-- The member `file`: the constructor leaves it uninitialised where it gets no file name, and
-- otherwise it is a QFile, which is not open where `open` fails, and whose contents are here where it
-- is open for appending.
pub data LogFile : Type 0 where
  uninitialised : LogFile
  not_open : LogFile
  file : Text → LogFile

pub record Logger : Type 0 where
  pub log_file : LogFile
  pub show_date : Bool
  pub debug : Bool
  -- what `write` has printed to the standard error; warnings of Qt are no part of it
  pub stderr : Text

-- QFile::open, whose result the constructor ignores: it fails, or finds the contents of the file.
unfoldable pub opened : Option Text → LogFile
opened none = not_open
opened (some contents) = file contents

-- The constructor; `contents` is what `open` gives for the file of that name.
unfoldable pub create : Text → Option Text → Bool → Bool → Logger
create [] contents show_date debug = record {
  log_file = uninitialised;
  show_date = show_date;
  debug = debug;
  stderr = [];
}
create (c ∷ name) contents show_date debug = record {
  log_file = opened contents;
  show_date = show_date;
  debug = debug;
  stderr = [];
}

-- The text that a call of `write` puts out, with its date and a line's end or with neither.
unfoldable pub line : Bool → Text → Text → Text
line show_date now value = if show_date then now ++ (value ++ codes "\n") else value

-- A QTextStream on a file that is not open writes nothing, and `%s` ends at the first zero.
put : Logger → LogFile → Text → Outcome Logger
put l uninitialised text = fault dangling
put l not_open text = ok (record l { stderr = l.stderr ++ c_string text })
put l (file contents) text = ok (record l {
  log_file = file (if l.debug then contents ++ text else contents);
  stderr = l.stderr ++ c_string text;
})

-- Logger::write. The test `!file` reads the pointer, which may be uninitialised.
unfoldable pub write : Text → Logger → Text → Outcome Logger
unfolding put line
write now l value = put l l.log_file (line l.show_date now value)

-- The destructor, which tests and follows the pointer too. A file that is closed keeps its contents, and
-- closing one that is not open does nothing.
close_file : Logger → LogFile → Outcome Logger
close_file l uninitialised = fault dangling
close_file l not_open = ok l
close_file l (file contents) = ok l

unfoldable pub destroy : Logger → Outcome Logger
unfolding close_file
destroy l = close_file l l.log_file

unfoldable pub set_show_date_time : Logger → Bool → Logger
set_show_date_time l value = record l { show_date = value }

unfoldable pub set_debug : Logger → Bool → Logger
set_debug l value = record l { debug = value }
