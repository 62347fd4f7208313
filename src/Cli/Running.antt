-- ===== src/Cli/Running.antt =====
-- No command line touches the socket of a session that it names while the session runs.
use zatch.Common.{
  ℕ, ◌≡◌, List, [], ◌∷◌, Option, none, some, true, false, Result, ok, err, codes, same, refl,
  Bool-cases, inl, inr,
}
use zatch.Util.Names.{session_envvar_name}
use zatch.Util.Places.{expand_sockname}
use zatch.Session.{Session}
use zatch.Session.Kill.{connect_socket}
use zatch.Session.Directory.{Entry, Files, lookup, connect_at}
use zatch.Session.Directory.Single.{rm_single-Decides}
use zatch.Start.{probe}
use zatch.Create.{World, Ran, prepared, cmd_attach, path_said}
use zatch.Create.Begins.{Untouched, attach_new-Untouched, commands-Untouched}
use zatch.Cli.{session_from_global, about, cmd_rm}
use zatch.Cli.Main.{
  Commands, list_all, current, attach, new, start, run, push, info, detach, kill, rm, clear, tail,
  Parsed, command, display_help, other, System, Left, nothing, by_path, in_directory, log_left,
  Outcome, of_ran, run_command, run_parsed, main,
}

-- The session that a command names, if it is one of those that make or remove the files of sessions.
abbrev pub target : Commands → Option (List ℕ)
target (list_all all) = none
target current = none
target (attach session) = some session
target (new session) = some session
target (start session) = some session
target (run session) = some session
target (push session) = none
target (info session) = none
target (detach session all) = none
target (kill session force) = none
target (clear session) = none
target (tail session follow lines) = none
target (rm session true) = none
target (rm none false) = none
target (rm (some session) false) = some session

abbrev pub named : Parsed → Option (List ℕ)
named (command global c) = target c
named display_help = none
named (other none) = none
named (other (some (global, session))) = some session

-- What is left are the files as they were, and not a directory from which files were removed, or a
-- log that was cleared.
abbrev pub LeftAs : Files → Left → Type 0
LeftAs files nothing = Unit {0}
LeftAs files (by_path after) = after ≡ files
LeftAs files (in_directory after) = ⊥
LeftAs files (log_left l) = ⊥

-- The command, once it has come back, has left the files as they were.
abbrev pub Kept : Files → Option Outcome → Type 0
Kept files none = Unit {0}
Kept files (some o) = LeftAs files o.left

of_ran-Kept : (w : World) (o : Option Ran) → Untouched w o → Kept w.files (of_ran o)
of_ran-Kept w none h = tt
of_ran-Kept w (some r) h = h

-- A session that answers to `connect` passes for one to `connect_socket` as well.
probe-connect_at :
    (path : List ℕ) (files : Files) → probe path files ≡ ok tt → connect_at path files ≡ ok tt
unfolding connect_at connect_socket
probe-connect_at path files = by_entry (lookup path files)
  where
    by_answer :
        (a : Result (Unit {0}) ℕ) (mode : Option ℕ) → a ≡ ok tt → connect_socket a mode ≡ ok tt
    by_answer (ok u) mode e = refl
    by_answer (err x) mode e = cc

    by_entry :
        (o : Option Entry)
        → ◌≡◌ {A = Result (Unit {0}) ℕ} (elim o [ none ↦ err 2 | some e ↦ e.connect ]) (ok tt)
        → ◌≡◌ {A = Result (Unit {0}) ℕ}
            (elim o [ none ↦ err 2 | some e ↦ connect_socket e.connect e.mode ])
            (ok tt)
    by_entry none e = cc
    by_entry (some x) e = by_answer x.connect x.mode e

module _ (os_error : ℕ → List ℕ) (sys : System) (sess : Session) where
  rm-Kept :
      (session : List ℕ)
      → probe (expand_sockname sys.world.place sess.progname session).path sys.world.files ≡ ok tt
      → Kept sys.world.files (run_command os_error sys sess (rm (some session) false))
  unfolding run_command cmd_rm about
  rm-Kept session p =
      let a = about sys.world.place sess session in
      let d = rm_single-Decides os_error a.sess sys.world.files in
      (d.running (probe-connect_at a.sess.sockname sys.world.files p)).1

  run_command-Kept :
      (c : Commands) (name : List ℕ)
      → target c ≡ some name
      → probe (expand_sockname sys.world.place sess.progname name).path sys.world.files ≡ ok tt
      → Kept sys.world.files (run_command os_error sys sess c)
  unfolding run_command prepared cmd_attach
  run_command-Kept (list_all all) name t p = absurd cc
  run_command-Kept current name t p = absurd cc
  run_command-Kept (attach session) name t p = of_ran-Kept sys.world _ (
      attach_new-Untouched os_error (prepared sess sys.world session) sys.world
        (path_said sess sys.world session))
  run_command-Kept (new session) name t p =
      of_ran-Kept sys.world _ ((commands-Untouched os_error sess sys.world session cc).0)
  run_command-Kept (start session) name t p =
      of_ran-Kept sys.world _ ((commands-Untouched os_error sess sys.world session cc).1)
  run_command-Kept (run session) name t p =
      of_ran-Kept sys.world _ ((commands-Untouched os_error sess sys.world session cc).2)
  run_command-Kept (push session) name t p = absurd cc
  run_command-Kept (info session) name t p = absurd cc
  run_command-Kept (detach session all) name t p = absurd cc
  run_command-Kept (kill session force) name t p = absurd cc
  run_command-Kept (clear session) name t p = absurd cc
  run_command-Kept (tail session follow lines) name t p = absurd cc
  run_command-Kept (rm session true) name t p = absurd cc
  run_command-Kept (rm none false) name t p = absurd cc
  run_command-Kept (rm (some session) false) name t p = rm-Kept session cc

run_parsed-Kept :
    (os_error : ℕ → List ℕ) (sys : System) (progname help : List ℕ) (parsed : Parsed)
    (name : List ℕ)
    → named parsed ≡ some name
    → probe (expand_sockname sys.world.place progname name).path sys.world.files ≡ ok tt
    → Kept sys.world.files (run_parsed os_error sys progname help parsed)
unfolding run_parsed session_from_global
run_parsed-Kept os_error sys progname help (command global c) name t p =
    run_command-Kept os_error sys
      (session_from_global global progname (session_envvar_name progname)) c name t p
run_parsed-Kept os_error sys progname help display_help name t p = tt
run_parsed-Kept os_error sys progname help (other none) name t p = tt
run_parsed-Kept os_error sys progname help (other (some (global, session))) name t p =
    run_command-Kept os_error sys
      (session_from_global global progname (session_envvar_name progname)) (attach session) name t p

-- Where a session answers at the path of the name that one of the commands `attach`, `new`, `start`,
-- `run` and `rm` is given, or that is given without a command, the program leaves the files as they
-- were, the session's socket and log among them, once it comes back; whatever the options are,
-- whatever the user answers, and whatever the kernel answers to the other calls.
pub main-Kept :
    (os_error : ℕ → List ℕ) (sys : System) (progname help : List ℕ) (raw : List (List ℕ))
    (parsed : Parsed) (name : List ℕ)
    → named parsed ≡ some name
    → probe (expand_sockname sys.world.place progname name).path sys.world.files ≡ ok tt
    → Kept sys.world.files (main os_error sys progname help raw parsed)
unfolding main
main-Kept os_error sys progname help [] parsed name t p =
    run_parsed-Kept os_error sys progname help parsed name t p
main-Kept os_error sys progname help (first ∷ raw) parsed name t p =
    elim (Bool-cases (same first (codes "--version"))) [
      | inl e ↦ rw (main, e) tt
      | inr e ↦ elim (Bool-cases (same first (codes "?"))) [
        | inl q ↦ rw (main, e, q) tt
        | inr q ↦ rw (main, e, q) (run_parsed-Kept os_error sys progname help parsed name t p)
      ]
    ]
