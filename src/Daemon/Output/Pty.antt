-- ===== src/Daemon/Output/Pty.antt =====
-- `handle_pty_output`: where the bytes of one read from the terminal end up.
use zatch.Common.{ℕ, ◌+◌, ◌-◌, ◌≡◌, List, ◌++◌, none, some, length, drop}
use zatch.Scrollback.Window.{contents}
use zatch.Daemon.{SessionDaemon, Effect}
use zatch.Daemon.Packets.{Outcome}
use zatch.Daemon.Output.{log_write}
use zatch.Daemon.Output.Delivery.{Delivered}

pub record Forwarded (size : ℕ) (bytes : List ℕ) (d d' : SessionDaemon) (es : List Effect)
    : Type 0 where
  pub delivered : Delivered bytes d.clients d'.clients es
  pub ring :
      contents size d'.scrollback
      ≡ drop (d.scrollback.len + length bytes - size) (contents size d.scrollback ++ bytes)
  pub logged : d'.log ≡ log_write d.log bytes

abbrev pub Forwards : ℕ → List ℕ → SessionDaemon → Outcome → Type 0
Forwards size bytes d none = Unit {0}
Forwards size bytes d (some (d', es)) = Forwarded size bytes d d' es
