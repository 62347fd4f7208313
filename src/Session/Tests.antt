-- ===== src/Session/Tests.antt =====
-- The theorems on the client at a concrete session, from the client's keys to the daemon's calls.
use zatch.Common.{
  ℕ, ◌≡◌, ◌≢◌, ◌++◌, List, [], ◌∷◌, none, some, Bool, true, false, ok, refl, arith, ltb, codes,
}
use zatch.Os.{Read, Write, room, Select}
use zatch.Wire.{to_bytes, encode, write_to, read_from}
use zatch.Wire.Methods.{RedrawMethod, ClearMethod}
use zatch.Wire.Winsize.{Winsize}
use zatch.Wire.Receive.{stream, Flows}
use zatch.Daemon.{Client, SessionDaemon, pty_write, signal}
use zatch.Daemon.Packets.{Batch, serve}
use zatch.Session.{Session, send}
use zatch.Session.Loop.{Given, Flags, push_packet, handle_stdin_data, Tick}
use zatch.Session.Input.{typed_bytes_arrive}
use zatch.Session.Kill.{Attempt, connect_socket, after_connect, send_kill, kill}
use zatch.Session.Signals.{send_kill-signals}
use zatch.Session.Stop.{Decides, SeenGone, requests, kill-Decides, kill-returns}

abbrev sess : Session
sess = record {
  progname = 122 ∷ [];
  session_envvar = codes "ZTCH_SESSION";
  sockname = 47 ∷ 115 ∷ [];
  detach_char = some 28;
  no_suspend = false;
  redraw_method = RedrawMethod.winch;
  clear_method = ClearMethod.unspec;
  no_ansiterm = false;
  quiet = false;
  log_max_size = 1024;
  dont_have_tty = false;
}

abbrev daemon : SessionDaemon
daemon = record {
  listener_fd = 3;
  pty = record { fd = 4; pid = 30 };
  clients = [];
  scrollback = record { buf = 0 ∷ 0 ∷ []; head = 0; len = 0 };
  log = none;
  sockname = 47 ∷ 115 ∷ [];
  progname = 122 ∷ [];
  has_attached = false;
  evict_attached = false;
}

abbrev client : Client
client = record { fd = 7; attached = true; replay_head = 0; replay_remaining = 0; peer_pid = 40 }

abbrev batch : Batch
batch = record { readable = λ fd. true; reads = λ fd. []; writes = λ fd. []; termios = none }

abbrev vga : Winsize
vga = record { ws_row = 25; ws_col = 80; ws_xpixel = 0; ws_ypixel = 0 }

abbrev flags : Flags
flags = record { should_die = false; win_changed = false }

abbrev whole : List Write
whole = room 10 ∷ []

abbrev bit_by_bit : List Write
bit_by_bit =
    room 1 ∷ room 1 ∷ room 1 ∷ room 1 ∷ room 1 ∷ room 1 ∷ room 1 ∷ room 1 ∷ room 1 ∷ room 1 ∷ []

abbrev from_client : List Read
from_client = Read.chunk (0 ∷ 2 ∷ 104 ∷ []) ∷ Read.chunk (105 ∷ 0 ∷ 0 ∷ 0 ∷ 0 ∷ 0 ∷ 0 ∷ []) ∷ []

from_client-Flows : Flows from_client
from_client-Flows = (λ e. cc, (λ e. cc, tt))

run_written : (write_to (push_packet (104 ∷ 105 ∷ [])) whole).result ≡ some (ok tt)
unfolding write_to push_packet
run_written = refl

run_out : stream from_client ≡ (write_to (push_packet (104 ∷ 105 ∷ [])) whole).out ++ []
unfolding write_to push_packet to_bytes
run_out = refl

typed_bytes_arrive_example :
    ((handle_stdin_data sess [] 26 vga (Given.bytes 104 (105 ∷ [])) flags).acts
      ≡ send (push_packet (104 ∷ 105 ∷ [])) ∷ [])
    × (serve 2 batch daemon 0 client (read_from from_client).result
        ≡ some (record { keep = true; daemon = daemon; effects = pty_write (104 ∷ 105 ∷ []) ∷ [] }))
typed_bytes_arrive_example =
    typed_bytes_arrive sess [] 26 vga 104 (105 ∷ []) flags whole from_client [] 2 batch daemon 0
      client refl refl run_written from_client-Flows run_out

-- The detach key ends the client with status 0; it sends no packet.
run_detach : (handle_stdin_data sess [] 26 vga (Given.bytes 28 []) flags).over ≡ some 0
unfolding handle_stdin_data
run_detach = refl

abbrev connected : Attempt
connected = record { connect = ok tt; mode = none; writes = bit_by_bit }

abbrev gone_at_two : ℕ → Bool
gone_at_two k = ltb 1 k

kill-Decides_example :
    Decides
      (kill (λ e. []) sess false connected gone_at_two connected)
      (((send_kill connected 1).result ≡ some (ok tt)) × SeenGone 4 0 gone_at_two)
      (requests false connected gone_at_two connected)
kill-Decides_example = kill-Decides (λ e. []) sess false connected gone_at_two connected

kill-returns_example : kill (λ e. []) sess false connected gone_at_two connected ≢ none
kill-returns_example =
    kill-returns (λ e. []) sess false connected gone_at_two connected (omega arith) (omega arith)

run_kill : (send_kill connected 1).result ≡ some (ok tt)
unfolding send_kill connect_socket after_connect write_to encode
run_kill = refl

abbrev from_killer : List Read
from_killer = Read.chunk (5 ∷ 1 ∷ 0 ∷ 0 ∷ 0 ∷ 0 ∷ 0 ∷ 0 ∷ 0 ∷ 0 ∷ []) ∷ []

run_kill_out : stream from_killer ≡ (send_kill connected 1).out ++ []
unfolding send_kill connect_socket after_connect write_to encode to_bytes
run_kill_out = refl

send_kill-signals_example :
    serve 2 batch daemon 0 client (read_from from_killer).result
    ≡ some (record { keep = true; daemon = daemon; effects = signal 30 1 ∷ [] })
send_kill-signals_example =
    send_kill-signals connected 1 from_killer [] 2 batch daemon 0 client (omega arith) (omega arith)
      run_kill (λ e. cc, tt) run_kill_out

-- Output of the session, and the detach key.
abbrev tick : Tick
tick = record {
  select = Select.ready;
  server = some (Given.bytes 104 []);
  stdin = some (Given.bytes 28 []);
  vsusp = 26;
  ws = vga;
  age = 53 ∷ 115 ∷ [];
}
