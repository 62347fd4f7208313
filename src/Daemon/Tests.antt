-- ===== src/Daemon/Tests.antt =====
-- The theorems on the daemon at a concrete session: a ring of four bytes, one attached client on
-- descriptor 7, and one on descriptor 9 whose replay is under way.
use zatch.Common.{
  ℕ, ◌≡◌, ◌≤◌, [], ◌∷◌, none, some, true, false, ok, All, get_elem?, ◌==◌, if◌then◌else◌, refl,
  arith,
}
use zatch.Os.{Read, Write, room, Select}
use zatch.Wire.{Packet}
use zatch.Daemon.{Client, SessionDaemon, handle_attach, handle_detach}
use zatch.Daemon.Inv.{IsValid, fds}
use zatch.Daemon.Packets.{Batch, serve, handle_client_packets}
use zatch.Daemon.Packets.Serve.{Ensures, Kept, serve-Kept}
use zatch.Daemon.Packets.Once.{Served, Ends, handle_client_packets-Served}
use zatch.Daemon.Output.{Round, send_to_clients, output, idle}
use zatch.Daemon.Output.Writes.{Distinct}
use zatch.Daemon.Output.Delivery.{Delivers, send_to_clients-Delivers}
use zatch.Daemon.Attach.{Attaches, handle_attach-Attaches}
use zatch.Daemon.Run.{build_fd_sets, drain_replay, Accept, Turn, run_turn, new_daemon}
use zatch.Daemon.Run.Steps.{build_fd_sets-bounds}
use zatch.Daemon.Run.Safety.{
  TurnsValid, run_turn-TurnsValid, Reaches, here, turn, new_daemon-IsValid,
}
use zatch.Daemon.Run.Detach.{Attached, detach_undone}

abbrev live : Client
live = record { fd = 7; attached = true; replay_head = 0; replay_remaining = 0; peer_pid = 40 }

abbrev replaying : Client
replaying = record {
  fd = 9;
  attached = false;
  replay_head = 1;
  replay_remaining = 2;
  peer_pid = 41;
}

abbrev session : SessionDaemon
session = record {
  listener_fd = 3;
  pty = record { fd = 4; pid = 30 };
  clients = live ∷ replaying ∷ [];
  scrollback = record { buf = 1 ∷ 2 ∷ 3 ∷ 4 ∷ []; head = 3; len = 4 };
  log = some [];
  sockname = 47 ∷ 115 ∷ [];
  progname = 122 ∷ [];
  has_attached = true;
  evict_attached = true;
}

session-IsValid : IsValid 4 session
session-IsValid = record {
  ring = record { full_size = refl; head_in = omega arith; len_in = omega arith };
  replays = ((omega arith, omega arith), ((omega arith, omega arith), tt));
}

session-Distinct : Distinct (fds session.clients)
session-Distinct = ((omega arith, tt), (tt, tt))

abbrev packet : ℕ → ℕ → Packet
packet t n = record { msg_type = t; len = n; payload = 0 ∷ 0 ∷ 0 ∷ 0 ∷ 0 ∷ 0 ∷ 0 ∷ 0 ∷ [] }

-- Both clients are readable: client 7 sends a detach packet, and client 9 has closed.
abbrev batch : Batch
batch = record {
  readable = λ fd. true;
  reads = λ fd.
      if fd == 7
      then Read.chunk (2 ∷ 0 ∷ 0 ∷ 0 ∷ 0 ∷ 0 ∷ 0 ∷ 0 ∷ 0 ∷ 0 ∷ []) ∷ []
      else Read.eof ∷ [];
  writes = λ fd. room 4 ∷ [];
  termios = none;
}

abbrev both_writable : Round
both_writable = record {
  select = Select.ready;
  listener_ready = false;
  writable = λ fd. true;
  write = λ fd. room 9;
}

abbrev round : Turn
round = record {
  mode = some 384;
  select = Select.ready;
  listener_ready = true;
  accept = Accept.accepted 11 50;
  batch = batch;
  writable = λ fd. true;
  drains = λ fd. room 2 ∷ room 2 ∷ Write.would_block ∷ [];
  pty = output 104 (105 ∷ []);
  rounds = both_writable ∷ [];
}

serve-Kept_example :
    Ensures (Kept 4 session) (serve 4 batch session 1 replaying (some (ok (packet 1 0))))
serve-Kept_example =
    serve-Kept 4 batch session 1 replaying refl session-IsValid (some (ok (packet 1 0)))

handle_client_packets-Served_example :
    Ends (Served 4 batch 0 session) (handle_client_packets 4 batch session)
handle_client_packets-Served_example = handle_client_packets-Served 4 batch session session-IsValid

send_to_clients-Delivers_example :
    Delivers
      (104 ∷ 105 ∷ [])
      session.clients
      (send_to_clients (104 ∷ 105 ∷ []) (both_writable ∷ []) session.clients)
send_to_clients-Delivers_example =
    send_to_clients-Delivers (104 ∷ 105 ∷ []) (both_writable ∷ []) session.clients session-Distinct

handle_attach-Attaches_example :
    Ensures
      (Attaches 4 session 1 replaying)
      (handle_attach 4 session 1 replaying (packet 1 0) (room 3 ∷ Write.would_block ∷ []))
handle_attach-Attaches_example =
    handle_attach-Attaches 4 session 1 replaying (packet 1 0) session-IsValid refl (omega arith)
      (room 3 ∷ Write.would_block ∷ [])

build_fd_sets-bounds_example :
    let s = (build_fd_sets session none).0 in All (λ fd. fd ≤ s.maxfd) s.rfds
build_fd_sets-bounds_example = build_fd_sets-bounds session none

run_turn-TurnsValid_example : TurnsValid 4 (run_turn 4 round session)
run_turn-TurnsValid_example = run_turn-TurnsValid 4 round session session-IsValid

-- A new session whose first round accepts a client.
abbrev fresh : SessionDaemon
fresh = new_daemon 4 3 (record { fd = 4; pid = 30 }) 0 none [] []

abbrev joining : Turn
joining = record round { batch = record batch { readable = λ fd. false }; pty = idle }

abbrev joined : SessionDaemon
joined = record {
  listener_fd = 3;
  pty = record { fd = 4; pid = 30 };
  clients =
      record { fd = 11; attached = false; replay_head = 0; replay_remaining = 0; peer_pid = 50 }
      ∷ [];
  scrollback = record { buf = 0 ∷ 0 ∷ 0 ∷ 0 ∷ []; head = 0; len = 0 };
  log = none;
  sockname = [];
  progname = [];
  has_attached = false;
  evict_attached = false;
}

joined-Reaches : Reaches 4 fresh joined
unfolding run_turn new_daemon
joined-Reaches = turn joining [] here refl

new_daemon-IsValid_example : IsValid 4 joined
new_daemon-IsValid_example =
    new_daemon-IsValid 4 3 (record { fd = 4; pid = 30 }) 0 none [] [] (omega arith) joined-Reaches

detach_undone_example :
    (let d' = (handle_detach session 1 replaying).daemon in
      ((x : Client) × (get_elem? d'.clients 1 ≡ some x) × (x.attached ≡ false))
      × Attached 1 (
          drain_replay 4 d'.scrollback.buf
            (λ fd. true)
            (λ fd. room 2 ∷ room 2 ∷ Write.would_block ∷ [])
            d'.clients))
detach_undone_example =
    detach_undone 4 session (λ fd. true) (λ fd. room 2 ∷ room 2 ∷ Write.would_block ∷ []) 1
      replaying 2 2 (Write.would_block ∷ []) session-IsValid refl (omega arith) (λ fd. tt) refl refl
      (omega arith) (omega arith)
