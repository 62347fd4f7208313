-- ===== src/Start/Tests.antt =====
-- The start of a session in a directory with one that runs, one that is stale, and a text.
use zatch.Common.{◌≡◌, [], ◌∷◌, none, some, true, false, ok, err, codes, refl}
use zatch.Session.Example.{sess}
use zatch.Session.Directory.{Entry, Files, remove_file}
use zatch.Start.{Bind, Kernel, listen_unix, session_daemon_main, socket_file}
use zatch.Start.Listens.{Listens, listen_unix-Listens, Begins, session_daemon_main-Begins}

abbrev plain : Entry
plain = record { mode = some 0o100644; mtime = 9; ctime = 9; connect = err 111; locked = none }

abbrev calls : Bind
calls = record { denied = none; nonblocking = none; permissions = none; now = 20 }

abbrev files : Files
files =
    (codes "/d/r", record plain { mode = some 0o140600; connect = ok tt })
    ∷ (codes "/d/s", record plain { mode = some 0o140600 })
    ∷ (codes "/d/notes", plain)
    ∷ []

listen_unix-Listens_example :
    Listens (codes "/d/s") calls files (listen_unix (codes "/d/s") calls files)
listen_unix-Listens_example = listen_unix-Listens (codes "/d/s") calls files

abbrev kernel : Kernel
kernel = record { fork = ok 50; pipe = true; bind = calls }

session_daemon_main-Begins_example :
    Begins sess kernel files
      (ok tt)
      (session_daemon_main (λ e. codes "error") sess false kernel (ok tt) 0 files)
session_daemon_main-Begins_example =
    session_daemon_main-Begins (λ e. codes "error") sess kernel (ok tt) 0 50 files refl refl

-- A file that is no socket refuses connections too: it is removed, and a socket takes its place.
text_lost :
    (listen_unix (codes "/d/notes") calls ((codes "/d/notes", plain) ∷ [])).files
    ≡ (codes "/d/notes", socket_file 20 0o140600 (ok tt)) ∷ []
unfolding listen_unix remove_file
text_lost = refl

-- A session in the foreground that comes to its end has removed its socket.
foreground_run :
    (session_daemon_main
      (λ e. codes "error")
      sess
      true
      kernel
      (ok tt)
      7
      ((codes "/d/r", plain) ∷ []))
    ≡ record { code = 7; acts = []; signals = []; files = (codes "/d/r", plain) ∷ [] }
unfolding session_daemon_main listen_unix remove_file
foreground_run = refl
