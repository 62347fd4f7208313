-- ===== src/Cli/Main.antt =====
-- `main` of src/main.rs: what is done for a command line. The clap library parses it, and is a
-- parameter: what it makes of the arguments, and the help text that it prints.
use zatch.Common.{
  ℕ, List, [], ◌∷◌, ◌++◌, Option, none, some, Bool, true, false, if◌then◌else◌, Result, ok, err,
  codes, same,
}
use zatch.Os.{Read, Write}
use zatch.Log.App.{LogLevel}
use zatch.Util.Names.{session_envvar_name}
use zatch.Session.{Session, Act, print, eprint, app_log}
use zatch.Session.Kill.{Attempt}
use zatch.Session.Push.{PushRound}
use zatch.Session.Query.{cmd_info, cmd_current}
use zatch.Session.Directory.{Files}
use zatch.Session.Directory.Listing.{list, cmd_detach_all}
use zatch.Create.{World, Ran, cmd_attach, cmd_new, cmd_start, cmd_run}
use zatch.Cli.{
  GlobalArgs, Log, about, session_from_global, cmd_kill, cmd_push, cmd_clear, cmd_rm, detach_one,
}
use zatch.Cli.Tail.{cmd_tail}

-- The commands; the command line to run in a new session is left to the kernel.
pub data Commands : Type 0 where
  list_all : Bool → Commands
  current : Commands
  attach new start run push info : List ℕ → Commands
  detach kill rm : Option (List ℕ) → Bool → Commands
  clear : Option (List ℕ) → Commands
  tail : List ℕ → Bool → ℕ → Commands

-- What clap makes of the arguments behind the name of the program.
pub data Parsed : Type 0 where
  command : GlobalArgs → Commands → Parsed
  display_help : Parsed
  other : Option (GlobalArgs × List ℕ) → Parsed

-- The answers to the calls of the commands, each as the command's model takes it.
pub record System : Type 0 where
  pub world : World
  pub attempt : Attempt
  pub gone : ℕ → Bool
  pub second : Attempt
  pub stale : List ℕ
  pub rounds : List PushRound
  pub answers : List Read
  pub writes : List ℕ → List Write
  pub dir : List ℕ
  pub listed : Files
  pub opens : Bool
  pub opens_again : Bool
  pub now : ℕ
  pub log : Log
  pub opened : Result (List ℕ) ℕ
  pub bufsize : ℕ
  pub scans : List ℕ
  pub reads : List ℕ

-- What a command changes: nothing, the files by their paths, the files of the session directory by
-- their names, or the log of the session.
pub data Left : Type 0 where
  nothing : Left
  by_path in_directory : Files → Left
  log_left : Log → Left

-- The exit code, or none where the event loop of an attachment begins; what was done, and what is left.
pub record Outcome : Type 0 where
  pub code : Option ℕ
  pub acts : List Act
  pub left : Left

abbrev exits : ℕ → List Act → Left → Outcome
exits code acts left = record { code = some code; acts = acts; left = left }

abbrev pub of_ran : Option Ran → Option Outcome
of_ran none = none
of_ran (some r) = some (record { code = r.code; acts = r.acts; left = by_path r.files })

-- A command that changes no file, with its exit code and what it said.
abbrev pub of_result : {R : Type 0} → (R → ℕ) → (R → List Act) → Option R → Option Outcome
of_result code acts none = none
of_result code acts (some r) = some (exits (code r) (acts r) nothing)

-- `rm -a` and `rm` without a session are about the directory.
abbrev removes_every : Option (List ℕ) → Bool → Bool
removes_every session true = true
removes_every none false = true
removes_every (some name) false = false

-- `cmd_tail`: with `-f` it does not come back once the log is open.
unfoldable pub tailed : (ℕ → List ℕ) → System → Session → List ℕ → Bool → ℕ → Option Outcome
tailed os_error sys sess session follow lines =
    let shown =
      of_result (λ r. r.code) (λ r. r.acts)
        (cmd_tail os_error sys.bufsize sys.world.place sess session lines sys.opened sys.scans
          sys.reads) in
    elim sys.opened [ err e ↦ shown | ok file ↦ if follow then none else shown ]

-- The match on the command. No result: a call has not come back.
unfoldable pub run_command : (ℕ → List ℕ) → System → Session → Commands → Option Outcome
unfolding tailed
run_command os_error sys sess (list_all all) =
    some (exits 0 (list sess all sys.opens sys.opens_again sys.now sys.listed) nothing)
run_command os_error sys sess current =
    of_result (λ r. r.code) (λ r. r.acts) (some (cmd_current sess sys.world.env))
run_command os_error sys sess (attach session) = of_ran (cmd_attach os_error sess sys.world session)
run_command os_error sys sess (new session) = of_ran (cmd_new os_error sess sys.world session)
run_command os_error sys sess (start session) = of_ran (cmd_start os_error sess sys.world session)
run_command os_error sys sess (run session) = of_ran (cmd_run os_error sess sys.world session)
run_command os_error sys sess (push session) =
    of_result (λ r. r.code) (λ r. r.acts)
      (cmd_push os_error sys.stale sys.world.place sess session sys.attempt sys.rounds)
run_command os_error sys sess (info session) =
    let a = about sys.world.place sess session in
    let t = sys.attempt in
    elim (of_result (λ r. r.code) (λ r. r.acts)
      (cmd_info os_error a.sess t.connect t.mode t.writes sys.answers)) [
        | none ↦ none
        | some o ↦ some (record o { acts = a.acts ++ o.acts })
      ]
run_command os_error sys sess (detach session true) =
    of_result (λ r. 0) (λ r. r.acts) (cmd_detach_all sess sys.writes sys.opens sys.listed)
run_command os_error sys sess (detach session false) =
    of_result (λ r. r.code) (λ r. r.acts)
      (detach_one os_error sys.world.place sys.world.env sess session sys.attempt)
run_command os_error sys sess (kill session force) =
    of_result (λ r. r.code) (λ r. r.acts)
      (cmd_kill os_error sys.world.place sys.world.env sess session force sys.attempt sys.gone
        sys.second)
run_command os_error sys sess (clear session) =
    let r = cmd_clear os_error sys.world.place sys.world.env sess session sys.log in
    some (exits r.code r.acts (log_left r.log))
run_command os_error sys sess (tail session follow lines) =
    tailed os_error sys sess session follow lines
run_command os_error sys sess (rm session all) =
    let r =
      cmd_rm os_error sys.world.place sess session all sys.dir sys.opens sys.opens_again sys.listed
        sys.world.files in
    some (
      exits r.code r.acts
        (if removes_every session all then in_directory r.files else by_path r.files))

-- What clap has parsed; `help` is the text that it prints, with exit code 0.
unfoldable pub run_parsed : (ℕ → List ℕ) → System → List ℕ → List ℕ → Parsed → Option Outcome
unfolding run_command
run_parsed os_error sys progname help (command global c) =
    run_command os_error sys (session_from_global global progname (session_envvar_name progname)) c
run_parsed os_error sys progname help display_help = some (exits 0 (print help ∷ []) nothing)
run_parsed os_error sys progname help (other (some (global, session))) =
    run_command os_error sys (session_from_global global progname (session_envvar_name progname))
      (attach session)
run_parsed os_error sys progname help (other none) = some (
    exits 1
      (app_log LogLevel.error (codes "invalid command line; usage suggested")
        ∷ eprint (codes "Try '" ++ (progname ++ codes " --help' for usage\n"))
        ∷ [])
      nothing)

-- `main`: `raw` are the arguments behind the name of the program.
unfoldable pub main :
    (ℕ → List ℕ) → System → List ℕ → List ℕ → List (List ℕ) → Parsed → Option Outcome
unfolding run_parsed
main os_error sys progname help [] parsed = run_parsed os_error sys progname help parsed
main os_error sys progname help (first ∷ raw) parsed =
    if same first (codes "--version")
    then some (
        exits 0
          (app_log LogLevel.info (codes "version requested")
            ∷ print (progname ++ codes " - version dev\n")
            ∷ [])
          nothing)
    else if same first (codes "?")
    then some (exits 0 (print help ∷ []) nothing)
    else run_parsed os_error sys progname help parsed
