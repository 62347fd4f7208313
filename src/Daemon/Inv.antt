-- ===== src/Daemon/Inv.antt =====
-- The invariant of the daemon's state, and what can be read off a list of system calls.
use zatch.Common.{ℕ, ◌≤◌, ◌<◌, List, [], ◌∷◌, ◌++◌, ◌≡◌, All, map, refl, ap}
use zatch.Scrollback.Window.{IsValid as IsValidRing}
use zatch.Daemon.{Client, SessionDaemon, Effect, received, close}

-- A replay stands inside the ring.
abbrev pub IsReplay : ℕ → Client → Type 0
IsReplay size c = (c.replay_head < size) × (c.replay_remaining ≤ size)

pub record IsValid (size : ℕ) (d : SessionDaemon) : Type 0 where
  pub ring : IsValidRing size d.scrollback
  pub replays : All (IsReplay size) d.clients

abbrev pub fds : List Client → List ℕ
fds = map (λ c. c.fd)

-- The descriptors from which a packet was read, in order.
abbrev pub received_fds : List Effect → List ℕ
received_fds [] = []
received_fds (received fd ∷ es) = fd ∷ received_fds es
received_fds (_ ∷ es) = received_fds es

-- The descriptors that were closed.
abbrev pub closed_fds : List Effect → List ℕ
closed_fds [] = []
closed_fds (close fd ∷ es) = fd ∷ closed_fds es
closed_fds (_ ∷ es) = closed_fds es

pub received_fds-append :
    (es fs : List Effect) → received_fds (es ++ fs) ≡ received_fds es ++ received_fds fs
received_fds-append [] fs = refl
received_fds-append (received fd ∷ es) fs = ap (◌∷◌ fd) (received_fds-append es fs)
received_fds-append (_ ∷ es) fs = received_fds-append es fs

pub closed_fds-append :
    (es fs : List Effect) → closed_fds (es ++ fs) ≡ closed_fds es ++ closed_fds fs
closed_fds-append [] fs = refl
closed_fds-append (close fd ∷ es) fs = ap (◌∷◌ fd) (closed_fds-append es fs)
closed_fds-append (_ ∷ es) fs = closed_fds-append es fs
