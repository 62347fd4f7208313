-- ===== src/Daemon/Run.antt =====
-- The event loop of src/session_daemon.rs: `run` with the steps that it is made of.
pub mod Steps
pub mod Keep
pub mod Safety
pub mod Detach
pub mod Liveness
mod Tests
use Prim.Native.Nat.{bit_and, bit_or, max}
use zatch.Common.{
  ℕ, ◌-◌, List, [], ◌∷◌, ◌++◌, Option, none, some, Bool, true, false, not, ◌&&◌, ◌||◌, map, length,
  retain, ltb, ◌==◌, if◌then◌else◌, codes,
}
use zatch.Os.{Write, Select}
use zatch.Scrollback
use zatch.Scrollback.{ReplayState, DrainResult, returned, waiting, drain}
use zatch.Daemon.{
  Client, Pty, SessionDaemon, Effect, wrote, close, chmod, app_log, attached_clients,
}
use zatch.Daemon.Packets.{Batch, Outcome, handle_client_packets}
use zatch.Daemon.Output.{Round, PtyRead, gone, handle_pty_output, cleanup}

-- The owner's execute bit, 0o100, set or cleared.
unfoldable pub exec_mode : Bool → ℕ → ℕ
exec_mode true mode = bit_or mode 0o100
exec_mode false mode = mode - bit_and mode 0o100

-- `mode` is what `metadata` reports, if it succeeds.
unfoldable pub update_socket_modes : List ℕ → Bool → Option ℕ → List Effect
unfolding exec_mode
update_socket_modes sockname exec none = []
update_socket_modes sockname exec (some mode) =
    let new_mode = exec_mode exec mode in
    if not (new_mode == mode) then chmod sockname new_mode ∷ [] else []

pub record FdSets : Type 0 where
  pub rfds : List ℕ
  pub wfds : List ℕ
  pub maxfd : ℕ

abbrev pub any_attached : List Client → Bool
any_attached [] = false
any_attached (c ∷ cs) = c.attached || any_attached cs

abbrev max_of : ℕ → List Client → ℕ
max_of m [] = m
max_of m (c ∷ cs) = max_of (if ltb m c.fd then c.fd else m) cs

abbrev is_replaying : Client → Bool
is_replaying c = ltb 0 c.replay_remaining

unfoldable pub build_fd_sets : SessionDaemon → Option ℕ → FdSets × SessionDaemon × List Effect
unfolding update_socket_modes
build_fd_sets d mode =
    let first = if ltb d.listener_fd d.pty.fd then d.pty.fd else d.listener_fd in
    let new_has = any_attached d.clients in
    (
      record {
        rfds = d.listener_fd ∷ d.pty.fd ∷ map (λ c. c.fd) d.clients;
        wfds = map (λ c. c.fd) (retain is_replaying d.clients);
        maxfd = max_of first d.clients;
      },
      record d { has_attached = new_has },
      update_socket_modes d.sockname new_has mode,
    )

-- What `accept` gives: nobody, a connection that cannot be made non-blocking, or one with its
-- descriptor and the process at its other end (0 if that is not known).
pub data Accept : Type 0 where
  nobody blocking : Accept
  accepted : ℕ → ℕ → Accept

unfoldable pub log_warn : SessionDaemon → List ℕ → SessionDaemon × List Effect
log_warn d msg =
    let line = codes "[" ++ (d.progname ++ (codes ": warn: " ++ (msg ++ codes "]\r\n"))) in
    (record d { log = elim d.log [ none ↦ none | some l ↦ some (l ++ line) ] }, app_log msg ∷ [])

unfoldable pub accept_client : SessionDaemon → Accept → SessionDaemon × List Effect
unfolding log_warn
accept_client d nobody = (d, [])
accept_client d blocking =
    log_warn d (codes "could not set client socket non-blocking; connection rejected")
accept_client d (accepted fd pid) = (
  record d {
    clients =
        d.clients
        ++ record {
          fd = fd;
          attached = false;
          replay_head = 0;
          replay_remaining = 0;
          peer_pid = pid;
        }
          ∷ [];
  },
  [],
)

-- The eviction that `handle_force_detach` asks for.
unfoldable pub evict : SessionDaemon → SessionDaemon × List Effect
evict d =
    let closes = map (λ (c : Client). close c.fd) (attached_clients d.clients) in
    if d.evict_attached
    then (
      record d { evict_attached = false; clients = retain (λ c. not c.attached) d.clients },
      closes,
    )
    else (d, [])

-- One client after its `drain`.
pub drained : Client → ReplayState → DrainResult → Option Client
drained c rs waiting = none
drained c rs (returned done) = some (record c {
  attached = if done && rs.remaining == 0 then true else c.attached;
  replay_head = rs.head;
  replay_remaining = rs.remaining;
})

abbrev cons_client :
    Option Client
    → List Effect
    → Option (List Client × List Effect)
    → Option (List Client × List Effect)
cons_client none es rest = none
cons_client (some c) es none = none
cons_client (some c) es (some (cs, fs)) = some (c ∷ cs, es ++ fs)

-- `drain_replay` over the clients: `writable` is what `select` reported.
unfoldable pub drain_replay :
    ℕ → List ℕ → (ℕ → Bool) → (ℕ → List Write) → List Client → Option (List Client × List Effect)
unfolding drained drain
drain_replay size buf writable writes [] = some ([], [])
drain_replay size buf writable writes (c ∷ cs) =
    let rest = drain_replay size buf writable writes cs in
    let r =
      drain size buf (record { head = c.replay_head; remaining = c.replay_remaining })
        (writes c.fd) in
    if ltb 0 c.replay_remaining && writable c.fd
    then cons_client (drained c r.state r.result) (wrote c.fd r.sent ∷ []) rest
    else cons_client (some c) [] rest

-- The kernel's answers in one round of `run`.
pub record Turn : Type 0 where
  pub mode : Option ℕ
  pub select : Select
  pub listener_ready : Bool
  pub accept : Accept
  pub batch : Batch
  pub writable : ℕ → Bool
  pub drains : ℕ → List Write
  pub pty : PtyRead
  pub rounds : List Round

-- A round ends with the daemon running, or ended with an exit status.
pub data Life : Type 0 where
  running : Life
  ended : ℕ → Life

pub record Turned : Type 0 where
  pub life : Life
  pub daemon : SessionDaemon
  pub effects : List Effect

abbrev life_after : PtyRead → Life
life_after (gone none) = ended 1
life_after (gone (some status)) = ended status
life_after _ = running

-- The parts of a round behind `handle_client_packets`.
unfoldable pub finish_turn : ℕ → Turn → SessionDaemon → List Effect → Option Turned
unfolding evict drain_replay handle_pty_output
finish_turn size t d es =
    let (d2, es2) = evict d in
    elim (drain_replay size d2.scrollback.buf t.writable t.drains d2.clients) [
      | none ↦ none
      | some (cs, es3) ↦ elim (handle_pty_output size t.pty t.rounds (record d2 { clients = cs })) [
        | none ↦ none
        | some (d4, es4) ↦
            some (record {
              life = life_after t.pty;
              daemon = d4;
              effects = es ++ (es2 ++ (es3 ++ es4));
            })
      ]
    ]

accept_if : Bool → SessionDaemon → Accept → SessionDaemon × List Effect
accept_if true d a = accept_client d a
accept_if false d a = (d, [])

-- The body of the loop after `select` reported descriptors.
unfoldable pub serve_turn : ℕ → Turn → SessionDaemon → List Effect → Option Turned
unfolding accept_if finish_turn handle_client_packets accept_client
serve_turn size t d es =
    let (d1, es1) = accept_if t.listener_ready d t.accept in
    elim (handle_client_packets size t.batch d1) [
      | none ↦ none
      | some (d2, es2) ↦ finish_turn size t d2 (es ++ (es1 ++ es2))
    ]

-- One round of `run`; a `break` leads to `cleanup` and the result 0.
unfoldable pub run_turn : ℕ → Turn → SessionDaemon → Option Turned
unfolding build_fd_sets serve_turn cleanup
run_turn size t d =
    let (sets, d1, es1) = build_fd_sets d t.mode in
    let (d2, es2) = cleanup d1 in
    elim t.select [
      | Select.interrupted ↦ some (record { life = running; daemon = d1; effects = es1 })
      | Select.failed ↦ some (record { life = ended 0; daemon = d2; effects = es1 ++ es2 })
      | Select.ready ↦ serve_turn size t d1 es1
    ]

-- `SessionDaemon::new`, once the terminal exists: `opened` is the session log, if its file could be
-- opened, and `log_max_size` is the size that the session asked for.
unfoldable pub new_daemon : ℕ → ℕ → Pty → ℕ → Option (List ℕ) → List ℕ → List ℕ → SessionDaemon
unfolding Scrollback.new
new_daemon size listener_fd pty log_max_size opened sockname progname = record {
  listener_fd = listener_fd;
  pty = pty;
  clients = [];
  scrollback = Scrollback.new size;
  log = if ltb 0 log_max_size then opened else none;
  sockname = sockname;
  progname = progname;
  has_attached = false;
  evict_attached = false;
}
