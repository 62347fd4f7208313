-- ===== src/Daemon.antt =====
-- The state of src/session_daemon.rs (`SessionDaemon`, with `Client` of src/client.rs and `Pty` of
-- src/pty.rs), what its methods do to the outside, and its packet handlers.
-- A method takes what the kernel answers and returns the new state with the system calls it made.
-- SCROLLBACK_SIZE is the argument `size`, as in Scrollback.
pub mod Clients
pub mod Packets
pub mod Output
pub mod Run
pub mod Inv
pub mod Attach
mod Tests
use Prim.Native.Nat.{bit_and}
use zatch.Common.{
  ℕ, zero, suc, ◌+◌, min, List, [], ◌∷◌, ◌++◌, Option, none, some, Bool, true, false, not, ◌&&◌,
  ◌||◌, length, take, get_elem?, set, retain, ltb, ◌==◌, if◌then◌else◌, codes, decimal,
}
use zatch.Os.{Read, Write}
use zatch.Wire.{Packet, write_buf, Sent}
use zatch.Wire.Methods.{RedrawMethod, redraw_as_u8}
use zatch.Wire.Winsize.{Winsize, winsize_from_bytes}
use zatch.Scrollback.{Scrollback, ReplayState, DrainResult, returned, waiting, Drained, drain}

pub record Client : Type 0 where
  pub fd : ℕ
  pub attached : Bool
  pub replay_head : ℕ
  pub replay_remaining : ℕ
  pub peer_pid : ℕ

pub record Pty : Type 0 where
  pub fd : ℕ
  pub pid : ℕ

-- `log` is what was written to the session log, if there is one. The listener socket and the
-- application log are the kernel's.
pub record SessionDaemon : Type 0 where
  pub listener_fd : ℕ
  pub pty : Pty
  pub clients : List Client
  pub scrollback : Scrollback
  pub log : Option (List ℕ)
  pub sockname : List ℕ
  pub progname : List ℕ
  pub has_attached : Bool
  pub evict_attached : Bool

-- The system calls of the daemon that can be seen from outside. `wrote fd bs`: the descriptor took
-- the bytes. `pty_write bs`: one `write` to the terminal, whose result the code ignores.
pub data Effect : Type 0 where
  received : ℕ → Effect
  wrote : ℕ → List ℕ → Effect
  pty_write : List ℕ → Effect
  set_winsize : Winsize → Effect
  signal : ℕ → ℕ → Effect
  close : ℕ → Effect
  chmod : List ℕ → ℕ → Effect
  app_log : List ℕ → Effect
  log_closed : List ℕ → Effect
  unlink : List ℕ → Effect
  exit : ℕ → Effect

-- What `tcgetattr` reports of the terminal.
pub record Termios : Type 0 where
  pub c_lflag : ℕ
  pub vmin : ℕ

-- What a handler leaves; `keep` is its result. No result means that a system call which it makes has
-- not come back with the answers at hand.
pub record Handled : Type 0 where
  pub keep : Bool
  pub daemon : SessionDaemon
  pub effects : List Effect

-- `kill(-pid, sig)`: the process group of the child.
abbrev pty_kill : Pty → ℕ → Effect
pty_kill pty sig = signal pty.pid sig

-- `self.clients[i].field = …`
abbrev pub set_client : SessionDaemon → ℕ → Client → SessionDaemon
set_client d i c = record d { clients = set d.clients i c }

unfoldable pub handle_push : SessionDaemon → Packet → Handled
handle_push d pkt =
    let dlen = min pkt.len (length pkt.payload) in
    record {
      keep = true;
      daemon = d;
      effects = if ltb 0 dlen then pty_write (take dlen pkt.payload) ∷ [] else [];
    }

-- What `handle_attach` does once `drain` has come back with its result.
attach_drained : SessionDaemon → ℕ → Client → ReplayState → List ℕ → DrainResult → Option Handled
attach_drained d i c rs sent waiting = none
attach_drained d i c rs sent (returned done) = some (record {
  keep = true;
  daemon = set_client d i (record c {
    attached = if done && rs.remaining == 0 then true else c.attached;
    replay_head = rs.head;
    replay_remaining = rs.remaining;
  });
  effects = wrote c.fd sent ∷ [];
})

-- `c` is `self.clients[i]`, and `writes` are the answers to the writes to its descriptor.
unfoldable pub handle_attach : ℕ → SessionDaemon → ℕ → Client → Packet → List Write → Option Handled
unfolding attach_drained
handle_attach size d i c pkt writes =
    let sb = d.scrollback in
    let r = drain size sb.buf (record { head = sb.head; remaining = sb.len }) writes in
    let replay = attach_drained d i c r.state r.sent r.result in
    let live = some (record {
      keep = true;
      daemon = set_client d i (record c { attached = true });
      effects = [];
    }) in
    if not (pkt.len == 0) || sb.len == 0 then live else replay

unfoldable pub handle_detach : SessionDaemon → ℕ → Client → Handled
handle_detach d i c = record {
  keep = true;
  daemon = set_client d i (record c { attached = false });
  effects = [];
}

unfoldable pub handle_force_detach : SessionDaemon → Handled
handle_force_detach d = record {
  keep = false;
  daemon = record d { evict_attached = true };
  effects = [];
}

abbrev pub attached_clients : List Client → List Client
attached_clients = retain (λ c. c.attached)

-- One `write_buf` after another to the descriptor `fd`.
write_lines : ℕ → List (List ℕ) → List Write → Option (List Effect)
unfolding write_buf
write_lines fd [] writes = some []
write_lines fd (line ∷ lines) writes =
    let s = write_buf line writes in
    let later = write_lines fd lines s.left in
    elim s.result [
      | none ↦ none
      | some _ ↦ elim later [ none ↦ none | some es ↦ some (wrote fd s.out ∷ es) ]
    ]

pid_lines : List Client → List (List ℕ)
unfolding decimal
pid_lines [] = []
pid_lines (c ∷ cs) = (codes "pid: " ++ (decimal c.peer_pid ++ codes "\n")) ∷ pid_lines cs

unfoldable pub info_lines : List Client → List (List ℕ)
unfolding pid_lines decimal
info_lines clients =
    let attached = attached_clients clients in
    (codes "attached: " ++ (decimal (length attached) ++ codes "\n")) ∷ pid_lines attached

unfoldable pub handle_info : SessionDaemon → ℕ → List Write → Option Handled
unfolding write_lines info_lines
handle_info d fd writes = elim (write_lines fd (info_lines d.clients) writes) [
  | none ↦ none
  | some es ↦ some (record { keep = false; daemon = d; effects = es })
]

unfoldable pub handle_winch : SessionDaemon → Packet → Handled
unfolding winsize_from_bytes
handle_winch d pkt = record {
  keep = true;
  daemon = d;
  effects = set_winsize (winsize_from_bytes pkt.payload) ∷ [];
}

-- The terminal is in raw mode: ECHO (8) and ICANON (2) are off, and VMIN is 1.
abbrev pub is_raw : Option Termios → Bool
is_raw none = false
is_raw (some t) = bit_and t.c_lflag 10 == 0 && t.vmin == 1

-- SIGWINCH is 28.
unfoldable pub handle_redraw : SessionDaemon → Packet → Option Termios → Handled
unfolding winsize_from_bytes redraw_as_u8
handle_redraw d pkt term =
    let redraw =
      if pkt.len == redraw_as_u8 RedrawMethod.ctrl_l
      then (if is_raw term then pty_write (0x0c ∷ []) ∷ [] else [])
      else if pkt.len == redraw_as_u8 RedrawMethod.winch
      then pty_kill d.pty 28 ∷ []
      else [] in
    record {
      keep = true;
      daemon = d;
      effects = set_winsize (winsize_from_bytes pkt.payload) ∷ redraw;
    }

-- SIGTERM is 15.
unfoldable pub handle_kill : SessionDaemon → Packet → Handled
handle_kill d pkt = record {
  keep = true;
  daemon = d;
  effects = pty_kill d.pty (if not (pkt.len == 0) then pkt.len else 15) ∷ [];
}
