-- ===== src/Session/Terminal.antt =====
-- The terminal's attributes in src/session.rs: `raw_terminal` for the time of an attachment, and what
-- puts them back, with the signal handlers. The constants are those of Linux.
pub mod Restores
mod Tests
use Prim.Native.Nat.{bit_and, bit_or}
use zatch.Common.{ℕ, ◌-◌, Option, none, some, Bool, true, false, if◌then◌else◌}

-- The fields of `libc::termios` that it changes, with two of the control characters.
pub record Termios : Type 0 where
  pub c_iflag : ℕ
  pub c_oflag : ℕ
  pub c_lflag : ℕ
  pub c_cflag : ℕ
  pub vmin : ℕ
  pub vtime : ℕ

-- `flags & !mask`.
unfoldable pub cleared : ℕ → ℕ → ℕ
cleared flags mask = flags - bit_and flags mask

-- The attributes that `raw_terminal` makes. Off are IGNBRK, BRKINT, PARMRK, ISTRIP, INLCR, IGNCR and
-- ICRNL (0o753), IXON and IXOFF (0o12000), ECHO, ECHONL, ICANON, ISIG and IEXTEN (0o100113), CSIZE and
-- PARENB (0o460); on are OPOST (1) and CS8 (0o60).
unfoldable pub raw_attributes : Termios → Termios
unfolding cleared
raw_attributes orig = record {
  c_iflag = cleared (cleared orig.c_iflag 0o753) 0o12000;
  c_oflag = bit_or orig.c_oflag 1;
  c_lflag = cleared orig.c_lflag 0o100113;
  c_cflag = bit_or (cleared orig.c_cflag 0o460) 0o60;
  vmin = 1;
  vtime = 0;
}

-- The terminal, and the static variables TERM_BACKUP (which is set once), TERM_BACKED_UP, HOOK_SET,
-- SHOULD_DIE and WIN_CHANGED.
pub record Tty : Type 0 where
  pub attributes : Termios
  pub term_backup : Option Termios
  pub term_backed_up : Bool
  pub hook_set : Bool
  pub should_die : Bool
  pub win_changed : Bool

-- `OnceLock::set`, whose result is ignored.
abbrev pub set_once : Option Termios → Termios → Option Termios
set_once none term = some term
set_once (some first) term = some first

-- `raw_terminal`; `restore_term` is also run at the exit of the process and by the panic hook.
unfoldable pub raw_terminal : Termios → Tty → Tty
unfolding raw_attributes
raw_terminal orig t = record t {
  attributes = raw_attributes orig;
  term_backup = set_once t.term_backup orig;
  term_backed_up = true;
  hook_set = true;
}

-- The attributes that `restore_term` sets.
abbrev pub backup_or : Option Termios → Termios → Termios
backup_or none attributes = attributes
backup_or (some term) attributes = term

unfoldable pub restore_term : Tty → Tty
restore_term t = record t {
  attributes = if t.term_backed_up then backup_or t.term_backup t.attributes else t.attributes;
}

-- The handlers of SIGHUP, SIGTERM, SIGINT and SIGQUIT, and of SIGWINCH.
unfoldable pub handle_die : Tty → Tty
unfolding restore_term
handle_die t = record (restore_term t) { should_die = true }

unfoldable pub handle_winch : Tty → Tty
handle_winch t = record t { win_changed = true }

-- `tcsetattr`.
abbrev pub set_attributes : Termios → Tty → Tty
set_attributes term t = record t { attributes = term }

-- What `restore_and_exit` does before it exits.
unfoldable pub before_exit : Termios → Tty → Tty
before_exit orig t = record t { attributes = orig; term_backed_up = false }
