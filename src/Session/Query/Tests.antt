-- ===== src/Session/Query/Tests.antt =====
-- `info` about a session with three clients, one of them attached.
use zatch.Common.{
  decimal, ◌≡◌, List, [], ◌∷◌, ◌++◌, none, some, true, false, ok, replicate, codes, refl, arith,
}
use zatch.Os.{Read, Write, room}
use zatch.Wire.{info as info_type, new, to_bytes, as_u8, read_from}
use zatch.Wire.Receive.{stream, Flows}
use zatch.Daemon.{Client, SessionDaemon}
use zatch.Daemon.Packets.{Batch, serve}
use zatch.Daemon.Packets.Report.{report, Informs}
use zatch.Session.Example.{sess}
use zatch.Session.Query.{cmd_info}
use zatch.Session.Query.Reports.{shown, cmd_info-Reports}

abbrev asking : Client
asking = record { fd = 9; attached = false; replay_head = 0; replay_remaining = 0; peer_pid = 42 }

abbrev daemon : SessionDaemon
daemon = record {
  listener_fd = 3;
  pty = record { fd = 4; pid = 30 };
  clients =
      record { fd = 7; attached = true; replay_head = 0; replay_remaining = 0; peer_pid = 40 }
      ∷ record { fd = 8; attached = false; replay_head = 0; replay_remaining = 0; peer_pid = 41 }
      ∷ asking
      ∷ [];
  scrollback = record { buf = 0 ∷ 0 ∷ []; head = 0; len = 0 };
  log = none;
  sockname = codes "/d/s";
  progname = codes "ztch";
  has_attached = true;
  evict_attached = false;
}

abbrev pieces : List Read
pieces = Read.chunk (codes "attached: 1\npi") ∷ Read.interrupted ∷ Read.chunk (codes "d: 40\n") ∷ []

pieces-Flows : Flows pieces
pieces-Flows = (λ e. cc, (λ e. cc, tt))

pieces-stream : stream pieces ≡ report daemon.clients
unfolding decimal
pieces-stream = refl

abbrev slowly : List Write
slowly = replicate 10 (room 1)

abbrev batch : Batch
batch = record {
  readable = λ fd. true;
  reads = λ fd. [];
  writes = λ fd. replicate 109 (room 1);
  termios = none;
}

abbrev request : List Read
request = Read.chunk (7 ∷ 0 ∷ 0 ∷ []) ∷ Read.chunk (0 ∷ 0 ∷ 0 ∷ 0 ∷ 0 ∷ 0 ∷ 0 ∷ []) ∷ []

request-stream : stream request ≡ to_bytes (new info_type) ++ []
unfolding new to_bytes as_u8
request-stream = refl

cmd_info-Reports_example :
    Informs daemon 9 (serve 2 batch daemon 2 asking (read_from request).result)
    × (cmd_info (λ e. codes "error") sess (ok tt) (some 0o140600) slowly (pieces ++ (Read.eof ∷ []))
        ≡ some (record {
          code = 0;
          acts = shown sess (report daemon.clients);
          sent = to_bytes (new info_type);
        }))
cmd_info-Reports_example =
    cmd_info-Reports (λ e. codes "error") sess (some 0o140600) slowly pieces [] 2 batch daemon 2
      asking request [] tt (omega arith) (λ e. cc, (λ e. cc, tt)) request-stream tt (omega arith)
      pieces-Flows pieces-stream
