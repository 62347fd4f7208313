-- ===== src/Daemon/Run/Tests.antt =====
-- Batches and replays that come to an end, at a concrete session: a ring of four bytes, and two
-- clients, of which the second has two bytes of its replay to come.
use zatch.Common.{ℕ, ◌≡◌, ◌∷◌, [], List, some, none, true, false, replicate, refl, arith}
use zatch.Os.{Read, room, would_block}
use zatch.Daemon.{Client, SessionDaemon, Effect}
use zatch.Daemon.Inv.{IsValid}
use zatch.Daemon.Packets.{Batch, handle_client_packets}
use zatch.Daemon.Packets.Once.{Served}
use zatch.Daemon.Packets.Answers.{Answered, handle_client_packets-returns}
use zatch.Daemon.Run.Liveness.{ReplayRound, Open, Live, Follows, replay_rounds, replay-Live}

abbrev client : ℕ → ℕ → Client
client fd n = record {
  fd = fd;
  attached = false;
  replay_head = 3;
  replay_remaining = n;
  peer_pid = 40;
}

abbrev pair : SessionDaemon
pair = record {
  listener_fd = 3;
  pty = record { fd = 4; pid = 30 };
  clients = client 7 0 ∷ client 9 2 ∷ [];
  scrollback = record { buf = 1 ∷ 2 ∷ 3 ∷ 4 ∷ []; head = 3; len = 4 };
  log = none;
  sockname = [];
  progname = [];
  has_attached = false;
  evict_attached = false;
}

pair-IsValid : IsValid 4 pair
pair-IsValid = record {
  ring = record { full_size = refl; head_in = omega arith; len_in = omega arith };
  replays = ((omega arith, omega arith), ((omega arith, omega arith), tt));
}

-- Each client asks for information, and its descriptor takes one byte at a time.
abbrev asking : Batch
asking = record {
  readable = λ fd. true;
  reads = λ fd. Read.chunk (7 ∷ 0 ∷ 0 ∷ 0 ∷ 0 ∷ 0 ∷ 0 ∷ 0 ∷ 0 ∷ 0 ∷ []) ∷ replicate 9 Read.eof;
  writes = λ fd. replicate 87 (room 1);
  termios = none;
}

asking-Answered : Answered 4 2 asking
asking-Answered = record { read = λ fd q. omega arith; wrote = λ fd q. omega arith }

handle_client_packets-returns_example :
    (d' : SessionDaemon) × (es : List Effect) × (handle_client_packets 4 asking pair
      ≡ some (d', es))
    × Served 4 asking 0 pair d' es
handle_client_packets-returns_example =
    handle_client_packets-returns 4 asking pair pair-IsValid asking-Answered

-- A round in which each descriptor takes one byte and is full then.
abbrev by_one : ReplayRound
by_one = record {
  buf = 1 ∷ 2 ∷ 3 ∷ 4 ∷ [];
  writable = λ fd. true;
  writes = λ fd. room 1 ∷ would_block ∷ [];
}

by_one-Open : Open 4 9 by_one
by_one-Open = record { full = refl; settled = λ g. tt; ready = refl; moves = tt }

replay-Live_example : Follows (Live 9) 1 (replay_rounds 4 (by_one ∷ by_one ∷ []) pair.clients)
replay-Live_example =
    replay-Live 4 (by_one ∷ by_one ∷ []) pair.clients 1 (client 9 2) refl (omega arith, omega arith)
      (by_one-Open, (by_one-Open, tt)) (omega arith) (omega arith)
