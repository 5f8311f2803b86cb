-- ===== src/Service/Create.antt =====
-- The constructor of OtService, and what a service that it made writes to its log file.
use ot_tcp_listener.Prelude.{
  ℕ, Bool, true, List, [], ◌∷◌, ◌++◌, ◌≡◌, refl, Option, none, some, append-nil, Text, codes,
}
use ot_tcp_listener.Prelude.Outcome.{ok}
use ot_tcp_listener.Logger.{Logger, opened, create, destroy}
use ot_tcp_listener.Logger.Laws.{write_all, lines, printed_lines, appended, write_all_opened}
use ot_tcp_listener.Service.{OtService, initial}
use ot_tcp_listener.Service.LogPath.{log_file_name}

-- What is set in the base class QtService.
pub record ServiceSettings : Type 0 where
  pub name : Text
  pub description : Text
  pub can_be_suspended : Bool
  pub auto_startup : Bool

pub record Created : Type 0 where
  pub settings : ServiceSettings
  pub logger : Logger
  pub ot_listener : OtService

abbrev pub service_settings : ServiceSettings
service_settings = record {
  name = codes "OtService";
  description = codes "This is ot service. ";
  can_be_suspended = true;
  auto_startup = true;
}

-- The constructor; QString::replace and what QFile::open gives for the file of a name are parameters.
unfoldable pub create_service : (Text → Text → Text → Text) → (Text → Option Text) → Text → Created
create_service replace contents service_folder =
    let file_name = log_file_name replace service_folder in
    record {
      settings = service_settings;
      logger = create file_name (contents file_name) true true;
      ot_listener = initial;
    }

create-has_file :
    (front rest : Text) (contents : Option Text) (c : ℕ) (show_date debug : Bool)
    → (create (front ++ c ∷ rest) contents show_date debug)
      ≡ record { log_file = opened contents; show_date = show_date; debug = debug; stderr = [] }
unfolding create
create-has_file [] rest contents c show_date debug = refl
create-has_file (d ∷ front) rest contents c show_date debug = refl

opened-appended : (contents : Option Text) → opened contents ≡ appended contents []
unfolding opened
opened-appended none = refl
opened-appended (some contents) = rw (append-nil contents) refl

destroy-appended :
    (l : Logger) (contents : Option Text) (text : Text)
    → l.log_file ≡ appended contents text
    → destroy l ≡ ok l
unfolding destroy
destroy-appended l none text e = rw e refl
destroy-appended l (some contents) text e = rw e refl

-- Whatever the service folder, the logger that the constructor of OtService makes has a QFile:
-- every sequence of messages is appended to what ot_log.txt held, if it could be opened, each with
-- its date and a line end, goes to the standard error too, up to its first zero, and leaves a
-- logger that can be destroyed.
pub write_all-create_service :
    (replace : Text → Text → Text → Text) (contents : Text → Option Text) (service_folder : Text)
    (messages : List (Text × Text))
    → let logger = (create_service replace contents service_folder).logger in
      let old = contents (log_file_name replace service_folder) in
      (l : Logger) × (write_all logger messages ≡ ok l)
      × (l.log_file ≡ appended old (lines true messages))
      × (l.stderr ≡ printed_lines true messages)
      × (destroy l ≡ ok l)
unfolding create_service log_file_name
write_all-create_service replace contents service_folder messages =
    let old = contents (log_file_name replace service_folder) in
    let made : Logger = record {
      log_file = opened old;
      show_date = true;
      debug = true;
      stderr = [];
    } in
    let written = record made {
      log_file = appended old (lines true messages);
      stderr = printed_lines true messages;
    } in
    (
      written,
      rw (create-has_file _ _ old _ true true)
          (write_all_opened messages made old [] refl (opened-appended old)),
      refl,
      refl,
      destroy-appended written old (lines true messages) refl,
    )
