-- ===== src/Session.antt =====
-- The client of src/session.rs: its configuration, and what it does to the outside.
pub mod Loop
pub mod Input
pub mod Ending
pub mod Kill
pub mod Signals
pub mod Stop
pub mod Directory
pub mod Push
pub mod Nesting
pub mod Connect
pub mod Query
pub mod Terminal
pub mod Example
mod Tests
use zatch.Common.{ℕ, ◌-◌, List, ◌++◌, ◌∷◌, [], Option, Bool, true, false, codes, if◌then◌else◌}
use zatch.Wire.{Packet}
use zatch.Wire.Methods.{RedrawMethod, ClearMethod}
use zatch.Log.App.{LogLevel}
use zatch.Util.Names.{session_shortname}
use zatch.Util.Parse.{format_age}

-- The configuration. `detach_char` is none where the code has a negative one. The application log is the
-- system's, and the terminal's attributes are in Terminal.
pub record Session : Type 0 where
  pub progname : List ℕ
  pub session_envvar : List ℕ
  pub sockname : List ℕ
  pub detach_char : Option ℕ
  pub no_suspend : Bool
  pub redraw_method : RedrawMethod
  pub clear_method : ClearMethod
  pub no_ansiterm : Bool
  pub quiet : Bool
  pub log_max_size : ℕ
  pub dont_have_tty : Bool

-- What a client does, in order. `print` writes a text to standard output, and `eprint` to standard
-- error; `send p` is one `write_to` of the packet whose result is ignored; `terminal true` sets the
-- terminal as it was at the start, and `terminal false` as it is for the session; `stop` is SIGTSTP
-- to itself.
pub data Act : Type 0 where
  send : Packet → Act
  output : List ℕ → Act
  print : List ℕ → Act
  eprint : List ℕ → Act
  app_log : LogLevel → List ℕ → Act
  terminal : Bool → Act
  stop : Act
  exit : ℕ → Act

-- `fmt_age`, where `now` is the clock's time.
unfoldable pub fmt_age : ℕ → ℕ → List ℕ
fmt_age now start = format_age (now - start)

-- `session 'name'`, and what follows it in a message.
unfoldable pub about_session : Session → List ℕ → List ℕ
about_session sess what =
    codes "session '" ++ (session_shortname sess.sockname ++ (codes "'" ++ what))

-- A message in brackets, on a line of its own.
unfoldable pub notice : Session → List ℕ → List ℕ
notice sess message =
    codes "\r\n[" ++ (sess.progname ++ (codes ": " ++ (message ++ codes "]\r\n\n")))

-- `restore_and_exit`.
abbrev pub restore_and_exit : ℕ → List Act
restore_and_exit code = terminal true ∷ exit code ∷ []

-- `Session::status`, `Session::info` and `Session::warn`; the last two say nothing if the session
-- is quiet, and the last one writes to standard error.
unfoldable pub status : Session → LogLevel → List ℕ → List Act
status sess level message =
    app_log level message ∷ print (sess.progname ++ (codes ": " ++ (message ++ codes "\n"))) ∷ []

unfoldable pub info : Session → List ℕ → List Act
info sess message =
    app_log LogLevel.info message
    ∷ (if sess.quiet
        then []
        else print (sess.progname ++ (codes ": " ++ (message ++ codes "\n"))) ∷ [])

unfoldable pub warn : Session → List ℕ → List Act
warn sess message =
    app_log LogLevel.warn message
    ∷ (if sess.quiet
        then []
        else eprint (sess.progname ++ (codes ": " ++ (message ++ codes "\n"))) ∷ [])
