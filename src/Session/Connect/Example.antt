-- ===== src/Session/Connect/Example.antt =====
-- A daemon with a full ring and a client that is not attached, for the tests.
use zatch.Common.{[], ◌∷◌, none, true, false, codes, refl, arith}
use zatch.Daemon.{Client, SessionDaemon}
use zatch.Daemon.Inv.{IsValid}
use zatch.Daemon.Packets.{Batch}

abbrev pub joining : Client
joining = record { fd = 7; attached = false; replay_head = 0; replay_remaining = 0; peer_pid = 40 }

abbrev pub daemon : SessionDaemon
daemon = record {
  listener_fd = 3;
  pty = record { fd = 4; pid = 30 };
  clients = joining ∷ [];
  scrollback = record { buf = 1 ∷ 2 ∷ 3 ∷ 4 ∷ []; head = 3; len = 4 };
  log = none;
  sockname = codes "/d/s";
  progname = codes "ztch";
  has_attached = false;
  evict_attached = false;
}

pub daemon-IsValid : IsValid 4 daemon
daemon-IsValid = record {
  ring = record { full_size = refl; head_in = omega arith; len_in = omega arith };
  replays = ((omega arith, omega arith), tt);
}

abbrev pub batch : Batch
batch = record { readable = λ fd. true; reads = λ fd. []; writes = λ fd. []; termios = none }
