-- ===== src/Session/Directory/Tests.antt =====
-- The removal of sessions in a directory with one that runs, one that is stale, a log of one that
-- has exited, and the application's log.
use zatch.Common.{ℕ, ◌≡◌, ◌≢◌, List, [], ◌∷◌, none, some, false, true, All, ok, err, codes, refl}
use zatch.Wire.Methods.{RedrawMethod, ClearMethod}
use zatch.Session.{Session}
use zatch.Session.Kill.{connect_socket}
use zatch.Session.Directory.{
  Entry, Files, lookup, socket_entry, remove_file, exists, connect_at, log_of, is_log, file_stem,
}
use zatch.Session.Directory.Store.{All-lookup, Unlocked, All-Unlocked}
use zatch.Session.Directory.Remove.{rm_all, rm_single}
use zatch.Session.Directory.Spares.{rm_all-Spares}
use zatch.Session.Directory.Clears.{IsClear, rm_all-Clears}
use zatch.Session.Directory.Shown.{IsRunning, rm_all-list}
use zatch.Scrollback
use zatch.Daemon.{SessionDaemon}
use zatch.Session.Directory.Listing.{list_rows}
use zatch.Session.Directory.Single.{Decides, rm_single-Decides}

abbrev client : Session
client = record {
  progname = codes "ztch";
  session_envvar = codes "ZTCH_SESSION";
  sockname = codes "b";
  detach_char = some 28;
  no_suspend = false;
  redraw_method = RedrawMethod.winch;
  clear_method = ClearMethod.unspec;
  no_ansiterm = false;
  quiet = false;
  log_max_size = 1024;
  dont_have_tty = false;
}

abbrev errors : ℕ → List ℕ
errors e = codes "failed"

-- A socket, with what a connection to it gives, and a plain file.
abbrev live_socket : Entry
live_socket = record { mode = some 0o140600; mtime = 9; ctime = 9; connect = ok tt; locked = none }

abbrev dead_socket : Entry
dead_socket = record live_socket { connect = err 111 }

abbrev plain : Entry
plain = record live_socket { mode = some 0o100600; connect = err 111 }

abbrev files : Files
files =
    (codes "a.log", plain)
    ∷ (codes "b", dead_socket)
    ∷ (codes "a", live_socket)
    ∷ (codes "b.log", plain)
    ∷ (codes "c.log", plain)
    ∷ (codes ".ztch-app.log", plain)
    ∷ []

files-Unlocked : Unlocked files
files-Unlocked = All-Unlocked files (refl, (refl, (refl, (refl, (refl, (refl, tt))))))

logs_named : (n : List ℕ) → lookup n files ≢ none → is_log n ≡ true → is_log (file_stem n) ≡ false
unfolding is_log file_stem
logs_named n found =
    All-lookup (λ name. is_log name ≡ true → is_log (file_stem name) ≡ false) files n
      (λ l. refl, (λ l. refl, (λ l. refl, (λ l. refl, (λ l. refl, (λ l. refl, tt)))))) found

a_no_log : is_log (codes "a") ≡ false
unfolding is_log
a_no_log = refl

-- The stale session, its log and the exited one's are gone.
rm_all_run :
    (rm_all errors client (codes "d") true true files).files
    ≡ (codes "a.log", plain) ∷ (codes "a", live_socket) ∷ (codes ".ztch-app.log", plain) ∷ []
unfolding rm_all socket_entry connect_socket remove_file exists file_stem
rm_all_run = refl

rm_all-Spares_example :
    let left = (rm_all errors client (codes "d") true true files).files in
    (lookup (codes "a") left ≡ some live_socket)
    × (lookup (log_of (codes "a")) left ≡ lookup (log_of (codes "a")) files)
rm_all-Spares_example =
    rm_all-Spares errors client (codes "d") true true files (codes "a") live_socket 0o140600 refl
      refl refl a_no_log refl

rm_all-Clears_example : IsClear (codes "b") (rm_all errors client (codes "d") true true files).files
rm_all-Clears_example = rm_all-Clears errors client (codes "d") files (codes "b") files-Unlocked

rm_all-list_example :
    All IsRunning
      (list_rows true true true 20 (rm_all errors client (codes "d") true true files).files)
rm_all-list_example = rm_all-list errors client (codes "d") 20 files files-Unlocked logs_named

rm_single-Decides_example :
    Decides client files (connect_at (codes "b") files) (rm_single errors client files)
rm_single-Decides_example = rm_single-Decides errors client files

-- A session whose name ends in ".log" is taken for a log: its socket is removed while it runs.
running_removed :
    (rm_all errors client (codes "d") true true ((codes "x.log", live_socket) ∷ [])).files ≡ []
unfolding rm_all socket_entry exists file_stem remove_file
running_removed = refl

-- A daemon to which one client is attached.
abbrev daemon : SessionDaemon
daemon = record {
  listener_fd = 3;
  pty = record { fd = 4; pid = 30 };
  clients =
      record { fd = 5; attached = true; replay_head = 0; replay_remaining = 0; peer_pid = 7 } ∷ [];
  scrollback = Scrollback.new 4;
  log = none;
  sockname = codes "d/a";
  progname = codes "ztch";
  has_attached = false;
  evict_attached = false;
}

-- Its socket file is made executable.
abbrev marked : Entry
marked = record live_socket { mode = some 0o140700 }
