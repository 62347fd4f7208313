-- ===== src/Session/Push/Tests.antt =====
-- `push` of two pieces of text, the first of which fills a packet.
use zatch.Common.{◌≡◌, List, [], ◌∷◌, none, some, true, false, ok, replicate, codes, refl, arith}
use zatch.Os.{Write, room, interrupted}
use zatch.Daemon.{Client, SessionDaemon}
use zatch.Daemon.Packets.{Batch}
use zatch.Session.Example.{sess}
use zatch.Session.Push.{PushRound, got, closed, push}
use zatch.Session.Push.Arrives.{Feeds, Arrives, push-Arrives, piped}

abbrev pusher : Client
pusher = record { fd = 7; attached = false; replay_head = 0; replay_remaining = 0; peer_pid = 40 }

abbrev batch : Batch
batch = record { readable = λ fd. true; reads = λ fd. []; writes = λ fd. []; termios = none }

abbrev daemon : SessionDaemon
daemon = record {
  listener_fd = 3;
  pty = record { fd = 4; pid = 30 };
  clients = pusher ∷ [];
  scrollback = record { buf = 0 ∷ 0 ∷ []; head = 0; len = 0 };
  log = none;
  sockname = codes "/d/s";
  progname = codes "ztch";
  has_attached = false;
  evict_attached = false;
}

-- One byte at a time.
abbrev slowly : List Write
slowly = interrupted ∷ replicate 10 (room 1)

abbrev rounds : List PushRound
rounds =
    record { read = got b'e' (codes "cho one two"); writes = slowly }
    ∷ record { read = got b'w' (codes "o\n"); writes = slowly }
    ∷ record { read = closed; writes = [] }
    ∷ []

rounds-Feeds : Feeds rounds
rounds-Feeds = (tt, omega arith, (tt, omega arith, tt))

rounds_piped : piped rounds ≡ codes "echo onewo\n"
rounds_piped = refl

push-Arrives_example :
    Arrives 2 batch 0 daemon rounds
      (push (λ e. codes "error") [] sess (ok tt) (some 0o140600) rounds)
push-Arrives_example =
    push-Arrives (λ e. codes "error") [] sess 2 batch 0 daemon pusher (some 0o140600) rounds refl
      rounds-Feeds
