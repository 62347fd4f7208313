-- ===== src/Cli/Tests.antt =====
-- The last line of a log of two, and a command about a session that runs.
use zatch.Common.{
  ℕ, ◌≡◌, refl, [], ◌∷◌, true, List, none, some, false, ok, All-replicate, replicate, ◌≤◌, codes,
  arith,
}
use zatch.Util.Places.{Place, expand_sockname}
use zatch.Start.{probe}
use zatch.Create.Example.{running}
use zatch.Session.Kill.{Attempt}
use zatch.Cli.{GlobalArgs}
use zatch.Cli.Main.{command, rm, System, main}
use zatch.Cli.Running.{Kept, main-Kept}
use zatch.Session.Example.{sess}
use zatch.Cli.Tail.{Prints, cmd_tail, cmd_tail-Prints}

abbrev place : Place
place = record { home = some (codes "/home/u"); pid = 5; create = none }

abbrev two_lines : List ℕ
two_lines = codes "one\ntwo\n"

cmd_tail-Prints_example : Prints two_lines 1 (
    cmd_tail
      (λ e. codes "error")
      4
      place
      sess
      (codes "s")
      1
      (ok two_lines)
      (replicate 8 4)
      (replicate 9 2))
cmd_tail-Prints_example =
    cmd_tail-Prints (λ e. codes "error") 4 place sess (codes "s") 1 two_lines (replicate 8 4)
      (replicate 9 2) (omega arith) (omega arith) (All-replicate (λ k. 4 ≤ k) 8 4 (omega arith))
      (omega arith) (All-replicate (λ k. 1 ≤ k) 9 2 (omega arith)) (omega arith)

abbrev nobody : Attempt
nobody = record { connect = ok tt; mode = some 0o140600; writes = [] }

-- A session runs at "/d/s".
abbrev system : System
system = record {
  world = running;
  attempt = nobody;
  gone = λ k. true;
  second = nobody;
  stale = [];
  rounds = [];
  answers = [];
  writes = λ name. [];
  dir = codes "/d";
  listed = [];
  opens = true;
  opens_again = true;
  now = 20;
  log = ok [];
  opened = ok [];
  bufsize = 4;
  scans = [];
  reads = [];
}

abbrev no_options : GlobalArgs
no_options = record {
  escape = none;
  disable_escape = false;
  no_suspend = false;
  quiet = false;
  no_ansiterm = false;
  redraw = none;
  clear = none;
  log_cap = none;
}

session-answers :
    probe (expand_sockname system.world.place (codes "ztch") (codes "/d/s")).path system.world.files
    ≡ ok tt
unfolding expand_sockname
session-answers = refl

main-Kept_example : Kept system.world.files (
    main
      (λ e. codes "error")
      system
      (codes "ztch")
      (codes "help")
      (codes "rm" ∷ codes "/d/s" ∷ [])
      (command no_options (rm (some (codes "/d/s")) false)))
main-Kept_example =
    main-Kept (λ e. codes "error") system (codes "ztch") (codes "help")
      (codes "rm" ∷ codes "/d/s" ∷ []) (command no_options (rm (some (codes "/d/s")) false))
      (codes "/d/s") refl session-answers
