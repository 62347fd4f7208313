-- ===== src/Daemon/Run/Steps.antt =====
-- The steps of `run`, one by one: `select`'s sets, the eviction, the replay, the terminal's output.
use zatch.Common.{
  All-retain, ℕ, ◌≡◌, ◌⊎◌, ◌≤◌, ◌<◌, List, [], ◌∷◌, ◌++◌, Option, none, some, Bool, true, false,
  not, ◌&&◌, length, retain, map, All, ltb, if◌then◌else◌, refl, ap, ap₂, ◌∙◌, arith, Bool-cases,
  inl, inr,
}
use zatch.Os.{Write}
use zatch.Scrollback.{ReplayState, drain, DrainResult, returned, waiting}
use zatch.Scrollback.Replay.{drain-Replays}
use zatch.Daemon.{Client, SessionDaemon, Effect, close, attached_clients}
use zatch.Daemon.Inv.{IsValid, IsReplay, fds, closed_fds, closed_fds-append}
use zatch.Daemon.Run.{
  build_fd_sets, max_of, Accept, nobody, blocking, accepted, accept_client, log_warn, evict,
  drained, cons_client, drain_replay,
}

-- Every descriptor in the read set is at most `maxfd`.
max_of-ge : (m : ℕ) (cs : List Client) → m ≤ max_of m cs
max_of-ge m [] = omega arith
max_of-ge m (c ∷ cs) = ground (arith, max_of-ge (if ltb m c.fd then c.fd else m) cs)

max_of-bounds : (m : ℕ) (cs : List Client) → All (λ fd. fd ≤ max_of m cs) (fds cs)
max_of-bounds m [] = tt
max_of-bounds m (c ∷ cs) =
    let k = if ltb m c.fd then c.fd else m in (ground (arith, max_of-ge k cs), max_of-bounds k cs)

-- `maxfd` bounds every descriptor of the read set: the listener, the terminal and each client.
pub build_fd_sets-bounds :
    (d : SessionDaemon) (mode : Option ℕ)
    → let s = (build_fd_sets d mode).0 in All (λ fd. fd ≤ s.maxfd) s.rfds
unfolding build_fd_sets
build_fd_sets-bounds d mode =
    let m = if ltb d.listener_fd d.pty.fd then d.pty.fd else d.listener_fd in
    (
      ground (arith, max_of-ge m d.clients),
      (ground (arith, max_of-ge m d.clients), max_of-bounds m d.clients),
    )

append-All :
    (P : Client → Type 0) (cs : List Client) (c : Client) → All P cs → P c → All P (cs ++ c ∷ [])
append-All P [] c h k = (k, tt)
append-All P (x ∷ cs) c h k = (h.0, append-All P cs c h.1 k)

none_attached : (cs : List Client) → attached_clients (retain (λ c. not c.attached) cs) ≡ []
none_attached [] = refl
none_attached (c ∷ cs) = ground (arith, none_attached cs)

closes_of : (cs : List Client) → closed_fds (map (λ (c : Client). close c.fd) cs) ≡ fds cs
closes_of [] = refl
closes_of (c ∷ cs) = ap (◌∷◌ c.fd) (closes_of cs)

-- A forced detach closes exactly the attached clients, once each, and leaves none of them and no
-- request in the state; without a request nothing happens.
pub evict_lem :
    (d : SessionDaemon)
    → ((d.evict_attached ≡ true)
        × (attached_clients (evict d).0.clients ≡ [])
        × (closed_fds (evict d).1 ≡ fds (attached_clients d.clients))
        × ((evict d).0.evict_attached ≡ false))
      ⊎ ((d.evict_attached ≡ false) × (evict d ≡ (d, [])))
unfolding evict
evict_lem d = elim (Bool-cases d.evict_attached) [
  | inl e ↦
      inl (
        e,
        rw e (none_attached d.clients),
        rw e (closes_of (attached_clients d.clients)),
        rw e refl,
      )
  | inr e ↦ inr (e, rw e refl)
]

pub evict-IsValid : (size : ℕ) (d : SessionDaemon) → IsValid size d → IsValid size (evict d).0
unfolding evict
evict-IsValid size d v = elim (Bool-cases d.evict_attached) [
  | inl e ↦
      rw e (record { ring = v.ring; replays = All-retain (IsReplay size) _ d.clients v.replays })
  | inr e ↦ rw e (record { ring = v.ring; replays = v.replays })
]

pub accept_client-IsValid :
    (size : ℕ) (d : SessionDaemon) (a : Accept)
    → IsValid size d
    → IsValid size (accept_client d a).0
unfolding accept_client log_warn
accept_client-IsValid size d nobody v = v
accept_client-IsValid size d blocking v = record { ring = v.ring; replays = v.replays }
accept_client-IsValid size d (accepted fd pid) v = record {
  ring = v.ring;
  replays =
      append-All (IsReplay size) d.clients _ v.replays (omega (arith, v.ring.head_in), omega arith);
}

-- What `drain_replay` leaves of the clients: their descriptors, and each replay inside the ring.
abbrev pub Replayed : ℕ → List Client → Option (List Client × List Effect) → Type 0
Replayed size cs none = Unit {0}
Replayed size cs (some (cs', es)) =
    (fds cs' ≡ fds cs) × All (IsReplay size) cs' × (closed_fds es ≡ [])

abbrev Drains : ℕ → Client → Option Client → Type 0
Drains size c none = Unit {0}
Drains size c (some c') = (c'.fd ≡ c.fd) × IsReplay size c'

cons_client-Replayed :
    (size : ℕ) (c : Client) (cs : List Client) (o : Option Client) (es : List Effect)
    (rest : Option (List Client × List Effect))
    → Drains size c o
    → closed_fds es ≡ []
    → Replayed size cs rest
    → Replayed size (c ∷ cs) (cons_client o es rest)
cons_client-Replayed size c cs none es rest h k q = tt
cons_client-Replayed size c cs (some c') es none h k q = tt
cons_client-Replayed size c cs (some c') es (some (cs', fs)) h k q =
    (ap₂ ◌∷◌ h.0 q.0, (h.1, q.1), closed_fds-append es fs ∙ ap₂ ◌++◌ k q.2)

drained-Drains :
    (size : ℕ) (c : Client) (rs : ReplayState) (r : DrainResult)
    → rs.head < size
    → rs.remaining ≤ size
    → Drains size c (drained c rs r)
unfolding drained
drained-Drains size c rs waiting h l = tt
drained-Drains size c rs (returned done) h l = (refl, (h, l))

-- `drain_replay` keeps the list of descriptors and closes none, and each replay stays in the ring.
pub drain_replay-Replayed :
    (size : ℕ) (buf : List ℕ) (writable : ℕ → Bool) (writes : ℕ → List Write) (cs : List Client)
    → length buf ≡ size
    → All (IsReplay size) cs
    → Replayed size cs (drain_replay size buf writable writes cs)
unfolding drain_replay
drain_replay-Replayed size buf writable writes [] full h = (refl, tt, refl)
drain_replay-Replayed size buf writable writes (c ∷ cs) full h =
    let rs : ReplayState = record { head = c.replay_head; remaining = c.replay_remaining } in
    let r = drain size buf rs (writes c.fd) in
    let q = drain-Replays size buf full (writes c.fd) rs h.0.0 h.0.1 in
    let later = drain_replay-Replayed size buf writable writes cs full h.1 in
    elim (Bool-cases (ltb 0 c.replay_remaining && writable c.fd)) [
      | inl e ↦
          rw (e, drain_replay)
            (cons_client-Replayed size c cs (drained c r.state r.result) _ _
              (drained-Drains size c r.state r.result q.head_in (omega (arith, q.less, h.0.1))) refl
              later)
      | inr e ↦
          rw (e, drain_replay) (cons_client-Replayed size c cs (some c) [] _ (refl, h.0) refl later)
    ]
