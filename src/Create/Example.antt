-- ===== src/Create/Example.antt =====
-- Worlds for the tests.
use zatch.Common.{[], ◌∷◌, none, some, true, false, ok, err, replicate, codes}
use zatch.Os.{room}
use zatch.Create.{Dial, World}

-- The daemon's log has not been written yet.
abbrev dial : Dial
dial = record {
  connect = ok tt;
  mode = some 0o140600;
  log = some [];
  ws = record { ws_row = 24; ws_col = 80; ws_xpixel = 0; ws_ypixel = 0 };
  writes = replicate 20 (room 1);
}

abbrev pub world : World
world = record {
  place = record { home = some (codes "/h"); pid = 5; create = none };
  env = none;
  no_tty = false;
  asked = (err 2, none);
  input = none;
  first = dial;
  second = dial;
  kernel = record {
    fork = ok 50;
    pipe = true;
    bind = record { denied = none; nonblocking = none; permissions = none; now = 20 };
  };
  made = ok tt;
  run = 0;
  files = [];
}

-- The same world with the session running, where the user declines to attach.
abbrev pub running : World
running = record world {
  asked = (ok tt, some 0o140600);
  input = some (codes "n\n");
  files =
      (
        codes "/d/s",
        record { mode = some 0o140600; mtime = 9; ctime = 9; connect = ok tt; locked = none },
      )
      ∷ [];
}
