-- ===== src/Cli.antt =====
-- src/main.rs: the options, the session that a command is about, and the commands that stand there.
-- The parsing of the command line is the clap library's.
pub mod Tail
pub mod Main
pub mod Running
mod Tests
use zatch.Common.{
  ℕ, ◌*◌, List, [], ◌∷◌, ◌++◌, Option, none, some, Bool, true, false, ◌==◌, if◌then◌else◌, Result,
  ok, err, codes, same, map,
}
use zatch.Wire.Methods.{RedrawMethod, ClearMethod}
use zatch.Log.App.{LogLevel}
use zatch.Util.Names.{session_shortname}
use zatch.Util.Parse.{parse_size, parse_escape_char}
use zatch.Util.Places.{Place, expand_sockname}
use zatch.Session.{Session, Act, print, eprint, app_log, about_session, info}
use zatch.Session.Kill.{Attempt, kill, Stopped}
use zatch.Session.Nesting.{resolve_session_name}
use zatch.Session.Directory.{Files}
use zatch.Session.Directory.Remove.{Removed, Swept, rm_all, rm_single}
use zatch.Session.Query.{Asked, cmd_detach}
use zatch.Session.Push.{PushRound, Piped, push}

-- The options in front of a command.
pub record GlobalArgs : Type 0 where
  pub escape : Option (List ℕ)
  pub disable_escape : Bool
  pub no_suspend : Bool
  pub quiet : Bool
  pub no_ansiterm : Bool
  pub redraw : Option (List ℕ)
  pub clear : Option (List ℕ)
  pub log_cap : Option (List ℕ)

-- LOG_MAX_SIZE.
abbrev pub log_max_size : ℕ
log_max_size = 1024 * 1024

-- The method that an option names.
unfoldable pub redraw_method_of : Option (List ℕ) → RedrawMethod
redraw_method_of none = RedrawMethod.unspec
redraw_method_of (some s) =
    if same s (codes "none")
    then RedrawMethod.none
    else if same s (codes "ctrl_l")
    then RedrawMethod.ctrl_l
    else if same s (codes "winch")
    then RedrawMethod.winch
    else RedrawMethod.unspec

unfoldable pub clear_method_of : Option (List ℕ) → ClearMethod
clear_method_of none = ClearMethod.unspec
clear_method_of (some s) =
    if same s (codes "none")
    then ClearMethod.none
    else if same s (codes "move")
    then ClearMethod.move
    else ClearMethod.unspec

-- 0x1c is `^\`.
abbrev escape_of : Option (List ℕ) → ℕ
escape_of none = 0x1c
escape_of (some s) = parse_escape_char s

-- A size that cannot be parsed is as none.
abbrev size_or : Option ℕ → ℕ
size_or none = log_max_size
size_or (some n) = n

abbrev log_cap_of : Option (List ℕ) → ℕ
log_cap_of none = log_max_size
log_cap_of (some s) = size_or (parse_size s)

unfoldable pub session_from_global : GlobalArgs → List ℕ → List ℕ → Session
unfolding redraw_method_of clear_method_of
session_from_global global progname session_envvar = record {
  progname = progname;
  session_envvar = session_envvar;
  sockname = [];
  detach_char = if global.disable_escape then none else some (escape_of global.escape);
  no_suspend = global.no_suspend;
  redraw_method = redraw_method_of global.redraw;
  clear_method = clear_method_of global.clear;
  no_ansiterm = global.no_ansiterm;
  quiet = global.quiet;
  log_max_size = log_cap_of global.log_cap;
  dont_have_tty = false;
}

-- `log_println` and `log_eprintln`.
unfoldable pub log_println : Session → LogLevel → List ℕ → List Act
log_println sess level msg =
    app_log level msg ∷ print (sess.progname ++ (codes ": " ++ (msg ++ codes "\n"))) ∷ []

unfoldable pub log_eprintln : Session → LogLevel → List ℕ → List Act
log_eprintln sess level msg =
    app_log level msg ∷ eprint (sess.progname ++ (codes ": " ++ (msg ++ codes "\n"))) ∷ []

-- What the computation of a socket's path says on standard error.
abbrev pub said : List (List ℕ) → List Act
said = map (λ text. eprint text)

-- No session is named, and there is none around.
unfoldable pub no_session : Session → List Act
no_session sess =
    log_eprintln sess LogLevel.error
      (codes "no session specified and " ++ (sess.session_envvar ++ codes " is not set"))

-- The session that a command is about, with what was said.
pub record About : Type 0 where
  pub sess : Session
  pub acts : List Act

unfoldable pub about : Place → Session → List ℕ → About
about place sess name =
    let p = expand_sockname place sess.progname name in
    record { sess = record sess { sockname = p.path }; acts = said p.said }

abbrev after_about : List Act → Option Stopped → Option Stopped
after_about acts none = none
after_about acts (some r) = some (record r { acts = acts ++ r.acts })

-- `cmd_kill`; `env` is the value of the variable that names the sessions around the process.
unfoldable pub cmd_kill :
    (ℕ → List ℕ)
    → Place
    → Option (List ℕ)
    → Session
    → Option (List ℕ)
    → Bool
    → Attempt
    → (ℕ → Bool)
    → Attempt
    → Option Stopped
unfolding about no_session
cmd_kill os_error place env sess session force first gone second =
    let name = resolve_session_name session env in
    let a = about place sess name in
    if same name []
    then some (record { code = 1; acts = no_session sess; sent = [] })
    else after_about a.acts (kill os_error a.sess force first gone second)

abbrev after_asked : List Act → Option Asked → Option Asked
after_asked acts none = none
after_asked acts (some r) = some (record r { acts = acts ++ r.acts })

-- `cmd_detach` without `-a`.
unfoldable pub detach_one :
    (ℕ → List ℕ) → Place → Option (List ℕ) → Session → Option (List ℕ) → Attempt → Option Asked
unfolding about no_session
detach_one os_error place env sess session t =
    let name = resolve_session_name session env in
    let a = about place sess name in
    if same name []
    then some (record { code = 1; acts = no_session sess; sent = [] })
    else after_asked a.acts (cmd_detach os_error a.sess t.connect t.mode t.writes)

abbrev after_piped : List Act → Option Piped → Option Piped
after_piped acts none = none
after_piped acts (some r) = some (record r { acts = acts ++ r.acts })

-- `cmd_push`; `stale` is as in Session.Push.
unfoldable pub cmd_push :
    (ℕ → List ℕ) → List ℕ → Place → Session → List ℕ → Attempt → List PushRound → Option Piped
unfolding about
cmd_push os_error stale place sess session t rounds =
    let a = about place sess session in
    after_piped a.acts (push os_error stale a.sess t.connect t.mode rounds)

-- What opening the log for writing gives: an errno, or its contents.
abbrev pub Log : Type 0
Log = Result (List ℕ) ℕ

-- What `cmd_clear` leaves; ENOENT is 2.
pub record Cleared : Type 0 where
  pub code : ℕ
  pub acts : List Act
  pub log : Log

unfoldable pub clear_log : (ℕ → List ℕ) → Session → Log → Cleared
clear_log os_error sess (ok bytes) = record {
  code = 0;
  acts = info sess (about_session sess (codes " log cleared"));
  log = ok [];
}
clear_log os_error sess (err e) =
    if e == 2 then record { code = 0; acts = []; log = err e } else record {
      code = 1;
      acts = log_eprintln sess LogLevel.error (sess.sockname ++ (codes ".log: " ++ os_error e));
      log = err e;
    }

unfoldable pub cmd_clear :
    (ℕ → List ℕ) → Place → Option (List ℕ) → Session → Option (List ℕ) → Log → Cleared
unfolding about clear_log
cmd_clear os_error place env sess session log =
    let a = about place sess (resolve_session_name session env) in
    let r = clear_log os_error a.sess log in record r { acts = a.acts ++ r.acts }

-- `sess.rm(true)`, with what the command said before.
unfoldable pub rm_every : (ℕ → List ℕ) → Session → List ℕ → Bool → Bool → Files → List Act → Removed
rm_every os_error sess dir opens opens_again files before =
    let r = rm_all os_error sess dir opens opens_again files in
    record { code = 0; acts = before ++ r.acts; files = r.files }

-- `cmd_rm`: `files` are those of the session directory `dir` by their names, and `by_path` the files
-- by their paths.
unfoldable pub cmd_rm :
    (ℕ → List ℕ)
    → Place
    → Session
    → Option (List ℕ)
    → Bool
    → List ℕ
    → Bool
    → Bool
    → Files
    → Files
    → Removed
unfolding rm_every about
cmd_rm os_error place sess session true dir opens opens_again files by_path =
    let warning =
      log_eprintln sess LogLevel.warn
        (codes "warning: session name is ignored when -a is used; removing all stale sessions") in
    rm_every os_error sess dir opens opens_again files
      (elim session [ none ↦ [] | some name ↦ warning ])
cmd_rm os_error place sess none false dir opens opens_again files by_path =
    rm_every os_error sess dir opens opens_again files []
cmd_rm os_error place sess (some name) false dir opens opens_again files by_path =
    let a = about place sess name in
    let r = rm_single os_error a.sess by_path in record r { acts = a.acts ++ r.acts }
