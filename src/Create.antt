-- ===== src/Create.antt =====
-- The commands of src/session.rs that start a session or attach to one: `cmd_attach`, `cmd_new`,
-- `cmd_start`, `cmd_run` and `implicit_attach`, with what they ask the user.
pub mod Begins
pub mod Example
mod Tests
use zatch.Common.{
  ℕ, ◌+◌, List, [], ◌∷◌, ◌++◌, Option, none, some, Bool, true, false, ◌&&◌, ◌||◌, ◌==◌, leb,
  if◌then◌else◌, Result, ok, err, codes, same, map,
}
use zatch.Os.{Write}
use zatch.Wire.Winsize.{Winsize}
use zatch.Log.App.{LogLevel}
use zatch.Util.Names.{session_shortname}
use zatch.Util.Parse.{trim}
use zatch.Util.Places.{Place, expand_sockname}
use zatch.Session.{Session, Act, print, eprint, app_log, about_session, info}
use zatch.Session.Kill.{connect_socket}
use zatch.Session.Connect.{LogRead, Begun, attach_start, replay_log}
use zatch.Session.Directory.{Files}
use zatch.Start.{Kernel, Started, session_daemon_main, try_remove}

-- The kernel's answers to one call of `attach`.
pub record Dial : Type 0 where
  pub connect : Result (Unit {0}) ℕ
  pub mode : Option ℕ
  pub log : Option (List LogRead)
  pub ws : Winsize
  pub writes : List Write

-- What a command finds: the user's place, the variable that names the sessions around the process,
-- whether standard input is a terminal, what the connection of the prompt gives and what the user
-- types, the answers to the calls of `attach`, and how the start of a session goes.
pub record World : Type 0 where
  pub place : Place
  pub env : Option (List ℕ)
  pub no_tty : Bool
  pub asked : Result (Unit {0}) ℕ × Option ℕ
  pub input : Option (List ℕ)
  pub first : Dial
  pub second : Dial
  pub kernel : Kernel
  pub made : Result (Unit {0}) ℕ
  pub run : ℕ
  pub files : Files

-- What a command leaves: its exit code, or none where the event loop begins; what it did, the bytes
-- that the session was sent, and the files.
pub record Ran : Type 0 where
  pub code : Option ℕ
  pub acts : List Act
  pub sent : List ℕ
  pub files : Files

abbrev pub finished : ℕ → List Act → Files → Option Ran
finished code acts files = some (record { code = some code; acts = acts; sent = []; files = files })

-- An attachment has begun, behind these actions.
abbrev pub began : List Act → Files → Option Begun → Option Ran
began acts files none = none
began acts files (some b) =
    some (record { code = b.code; acts = acts ++ b.acts; sent = b.sent; files = files })

-- `attach(noerror)`.
unfoldable pub attach_by : (ℕ → List ℕ) → Session → Option (List ℕ) → Bool → Dial → Option Begun
attach_by os_error sess env noerror d =
    attach_start os_error sess env noerror d.connect d.mode d.log d.ws d.writes

-- What `require_tty` says if there is no terminal.
unfoldable pub require_tty : Session → Option (List Act)
require_tty sess =
    let text = codes "attaching to a session requires a terminal." in
    if sess.dont_have_tty
    then some (
        app_log LogLevel.error text
        ∷ eprint (sess.progname ++ (codes ": " ++ (text ++ codes "\n")))
        ∷ [])
    else none

-- The session that the command names, as `with_tty` leaves it.
unfoldable pub prepared : Session → World → List ℕ → Session
prepared sess w name = record sess {
  sockname = (expand_sockname w.place sess.progname name).path;
  dont_have_tty = w.no_tty;
}

-- What the computation of its path says.
abbrev pub path_said : Session → World → List ℕ → List Act
path_said sess w name = map (λ text. eprint text) (expand_sockname w.place sess.progname name).said

-- `to_lowercase`, of which only the letters of "yes" matter.
abbrev lower : List ℕ → List ℕ
lower = map (λ c. if leb b'A' c && leb c b'Z' then c + 32 else c)

-- The answer is yes; `input` is the line, if it can be read.
unfoldable pub says_yes : Option (List ℕ) → Bool
says_yes none = false
says_yes (some line) =
    let answer = lower (trim line) in
    same answer [] || same answer (codes "y") || same answer (codes "yes")

-- What becomes of the prompt: it is not shown, or the user agrees, or not.
pub data Prompt : Type 0 where
  unasked : Prompt
  agreed declined : List Act → Prompt

unfoldable pub prompt_attach_if_running : Session → World → Prompt
unfolding says_yes
prompt_attach_if_running sess w =
    let text =
      print (
        sess.progname
        ++ (codes ": " ++ about_session sess (codes " is already running. Attach? [Y/n] ")))
      ∷ [] in
    let asked : Prompt = elim (connect_socket w.asked.0 w.asked.1) [
      | err e ↦ unasked
      | ok u ↦ if says_yes w.input then agreed text else declined text
    ] in
    if sess.dont_have_tty || sess.quiet then unasked else asked

-- The prompt, and else the rest of the command.
unfoldable pub unless_running : (ℕ → List ℕ) → Session → World → List Act → Option Ran → Option Ran
unfolding attach_by
unless_running os_error sess w before rest = elim (prompt_attach_if_running sess w) [
  | unasked ↦ rest
  | agreed acts ↦ began (before ++ acts) w.files (attach_by os_error sess w.env false w.first)
  | declined acts ↦ finished 1 (before ++ acts) w.files
]

-- The end of `cmd_new`, once the session is started.
unfoldable pub attach_new : (ℕ → List ℕ) → Session → World → List Act → Files → Option Ran
unfolding attach_by require_tty
attach_new os_error sess w before files = elim (require_tty sess) [
  | some acts ↦ finished 1 (before ++ acts) files
  | none ↦ began before files (attach_by os_error sess w.env false w.second)
]

-- A session is started in the background, and then `next` is done behind these actions.
unfoldable pub after_start :
    (ℕ → List ℕ)
    → Session
    → World
    → List Act
    → List ℕ
    → (List Act → Files → Option Ran)
    → Option Ran
after_start os_error sess w before what next =
    let s = session_daemon_main os_error sess false w.kernel w.made w.run w.files in
    if s.code == 0
    then next (before ++ (s.acts ++ info sess (about_session sess what))) s.files
    else finished 1 (before ++ s.acts) s.files

unfoldable pub cmd_attach : (ℕ → List ℕ) → Session → World → List ℕ → Option Ran
unfolding attach_new prepared
cmd_attach os_error sess w name =
    attach_new os_error (prepared sess w name) w (path_said sess w name) w.files

unfoldable pub cmd_new : (ℕ → List ℕ) → Session → World → List ℕ → Option Ran
unfolding unless_running after_start attach_new prepared
cmd_new os_error sess w name =
    let c = prepared sess w name in
    let before = path_said sess w name in
    unless_running os_error c w before
      (after_start os_error c w before (codes " created") (attach_new os_error c w))

unfoldable pub cmd_start : (ℕ → List ℕ) → Session → World → List ℕ → Option Ran
unfolding unless_running after_start prepared
cmd_start os_error sess w name =
    let c = prepared sess w name in
    let before = path_said sess w name in
    unless_running os_error c w before
      (after_start os_error c w before (codes " started") (finished 0))

unfoldable pub cmd_run : (ℕ → List ℕ) → Session → World → List ℕ → Option Ran
unfolding unless_running prepared
cmd_run os_error sess w name =
    let c = prepared sess w name in
    let before = path_said sess w name in
    let s = session_daemon_main os_error c true w.kernel w.made w.run w.files in
    unless_running os_error c w before (finished s.code (before ++ s.acts) s.files)

-- What `implicit_attach` does behind its first call of `attach`, which ended with this code.
-- ECONNREFUSED is 111, and ENOENT 2.
unfoldable pub attach_or_create : (ℕ → List ℕ) → Session → World → List Act → ℕ → Option Ran
unfolding after_start attach_by
attach_or_create os_error sess w before saved =
    let shown = replay_log os_error sess w.first.log saved in
    let left = if saved == 111 then try_remove sess.sockname w.files else w.files in
    let create =
      after_start os_error sess (record w { files = left }) (before ++ shown.acts)
        (codes " created")
        (λ acts files. began acts files (attach_by os_error sess w.env false w.second)) in
    if saved == 0
    then finished 0 before w.files
    else if saved == 111 || saved == 2
    then create
    else finished 1 before w.files

-- No result: a write of the first call has not come back.
unfoldable pub implicit_attach : (ℕ → List ℕ) → Session → World → Option Ran
unfolding attach_or_create require_tty attach_by
implicit_attach os_error sess w =
    let c = record sess { dont_have_tty = w.no_tty } in
    let tried : Option Ran = elim (attach_by os_error c w.env true w.first) [
      | none ↦ none
      | some b ↦ elim b.code [
        | none ↦ began [] w.files (some b)
        | some code ↦ attach_or_create os_error c w b.acts code
      ]
    ] in
    elim (require_tty c) [ some acts ↦ finished 1 acts w.files | none ↦ tried ]

-- The command of a session: `$SHELL` if none is given, or else `/bin/sh`.
unfoldable pub use_shell_if_no_cmd : List (List ℕ) → Option (List ℕ) → List (List ℕ)
use_shell_if_no_cmd (a ∷ args) shell = a ∷ args
use_shell_if_no_cmd [] none = codes "/bin/sh" ∷ []
use_shell_if_no_cmd [] (some []) = codes "/bin/sh" ∷ []
use_shell_if_no_cmd [] (some (c ∷ s)) = (c ∷ s) ∷ []
