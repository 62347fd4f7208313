-- ===== src/Start.antt =====
-- The start of a session: `listen_unix` of src/sock.rs, and `session_daemon_main` of
-- src/session_daemon.rs with its two processes. Files are known by their paths.
pub mod Listens
mod Tests
use zatch.Common.{
  ℕ, List, [], ◌∷◌, ◌++◌, Option, none, some, Bool, true, false, ◌==◌, if◌then◌else◌, Result, ok,
  err, codes,
}
use zatch.Log.App.{LogLevel}
use zatch.Session.{Session, Act, print, app_log, about_session}
use zatch.Session.Directory.{Entry, Files, lookup, remove, remove_file}

-- What the kernel says of the calls that make a listening socket: the errno of a call that fails, and
-- the time.
pub record Bind : Type 0 where
  pub denied : Option ℕ
  pub nonblocking : Option ℕ
  pub permissions : Option ℕ
  pub now : ℕ

-- A socket with a mode, at which a session answers, or none.
unfoldable pub socket_file : ℕ → ℕ → Result (Unit {0}) ℕ → Entry
socket_file now mode answer = record {
  mode = some mode;
  mtime = now;
  ctime = now;
  connect = answer;
  locked = none;
}

-- What `listen_unix` leaves: an errno, or a listener, and the files.
pub record Listened : Type 0 where
  pub result : Result (Unit {0}) ℕ
  pub files : Files

-- A call behind `bind` fails: the listener is closed, and the file stays.
abbrev unbound : List ℕ → Bind → ℕ → Files → Listened
unbound path b e files = record {
  result = err e;
  files = (path, socket_file b.now 0o140755 (err 111)) ∷ files;
}

-- `bind` and what follows it. EADDRINUSE is 98.
unfoldable pub bind : List ℕ → Bind → Files → Listened
unfolding socket_file
bind path b files = elim (lookup path files) [
  | some e ↦ record { result = err 98; files = files }
  | none ↦ elim b.denied [
    | some x ↦ record { result = err x; files = files }
    | none ↦ elim b.nonblocking [
      | some x ↦ unbound path b x files
      | none ↦ elim b.permissions [
        | some x ↦ unbound path b x files
        | none ↦ record {
          result = ok tt;
          files = (path, socket_file b.now 0o140600 (ok tt)) ∷ files;
        }
      ]
    ]
  ]
]

-- `UnixStream::connect`; ENOENT is 2.
abbrev pub probe : List ℕ → Files → Result (Unit {0}) ℕ
probe path files = elim (lookup path files) [ none ↦ err 2 | some e ↦ e.connect ]

-- The removal of a file, whose failure is ignored.
unfoldable pub try_remove : List ℕ → Files → Files
try_remove path files = elim (remove_file path files) [ ok left ↦ left | err e ↦ files ]

-- ECONNREFUSED is 111.
unfoldable pub listen_unix : List ℕ → Bind → Files → Listened
unfolding bind try_remove
listen_unix path b files = elim (probe path files) [
  | ok u ↦ record { result = err 98; files = files }
  | err x ↦ bind path b (if x == 111 then try_remove path files else files)
]

-- What the kernel does for `session_daemon_main`: the child's process id, or the errno of a `fork` that
-- fails; whether the pipe was made; and what it says of the listener. The parent's read of the pipe
-- gives the bytes that the child wrote, and its end if there is none.
pub record Kernel : Type 0 where
  pub fork : Result ℕ ℕ
  pub pipe : Bool
  pub bind : Bind

-- The child's part: `made` is the result of `SessionDaemon::new`, and `run` the exit code of the
-- daemon. It leaves the bytes that it wrote to the pipe, which it then closes, and its exit code.
pub record Child : Type 0 where
  pub told : List ℕ
  pub code : ℕ

unfoldable pub child : Bool → Result (Unit {0}) ℕ → ℕ → Child
child pipe (err ec) run = record { told = if pipe then 1 ∷ [] else []; code = ec }
child pipe (ok u) run = record { told = []; code = run }

-- What the command leaves: its exit code, what it said, the signals that it sent, and the files.
pub record Started : Type 0 where
  pub code : ℕ
  pub acts : List Act
  pub signals : List (ℕ × ℕ)
  pub files : Files

-- What is said of a socket that cannot be made.
unfoldable pub not_listening : (ℕ → List ℕ) → Session → ℕ → List Act
not_listening os_error sess e =
    let text =
      if e == 98
      then about_session sess (codes " is already running")
      else sess.sockname ++ (codes ": " ++ os_error e) in
    app_log LogLevel.error text ∷ print (sess.progname ++ (codes ": " ++ (text ++ codes "\n"))) ∷ []

-- The parent's read of the pipe gave these bytes. SIGTERM is 15.
unfoldable pub parent : ℕ → List ℕ → Files → Started
parent pid [] files = record { code = 0; acts = []; signals = []; files = files }
parent pid (b ∷ bs) files = record { code = 1; acts = []; signals = (pid, 15) ∷ []; files = files }

-- The two processes, once there is a listener; a pipe that was not made is not read.
unfoldable pub launch : (ℕ → List ℕ) → Session → Kernel → Result (Unit {0}) ℕ → ℕ → Files → Started
unfolding parent child
launch os_error sess k made run files = elim k.fork [
  | err e ↦ record {
    code = 1;
    acts =
        app_log LogLevel.error (codes "fork: " ++ os_error e)
        ∷ print (sess.progname ++ (codes ": fork: " ++ (os_error e ++ codes "\n")))
        ∷ [];
    signals = [];
    files = try_remove sess.sockname files;
  }
  | ok pid ↦ parent pid (child k.pipe made run).told files
]

-- `dontfork`: the daemon runs in this process; `run` ends with `cleanup`, which removes the socket.
abbrev in_foreground : List ℕ → Result (Unit {0}) ℕ → ℕ → Files → Started
in_foreground path (err ec) run files = record { code = ec; acts = []; signals = []; files = files }
in_foreground path (ok u) run files = record {
  code = run;
  acts = [];
  signals = [];
  files = try_remove path files;
}

unfoldable pub session_daemon_main :
    (ℕ → List ℕ) → Session → Bool → Kernel → Result (Unit {0}) ℕ → ℕ → Files → Started
unfolding listen_unix launch not_listening
session_daemon_main os_error sess dontfork k made run files =
    let l = listen_unix sess.sockname k.bind files in
    elim l.result [
      | err e ↦ record {
        code = 1;
        acts = not_listening os_error sess e;
        signals = [];
        files = l.files;
      }
      | ok u ↦
          if dontfork
          then in_foreground sess.sockname made run l.files
          else launch os_error sess k made run l.files
    ]
