-- ===== src/Daemon/Run/Safety.antt =====
-- The daemon's invariant over its whole life.
use zatch.Common.{ℕ, ◌≡◌, ◌≢◌, List, ◌++◌, Option, none, some, Bool, true, false}
use zatch.Os.{Select}
use zatch.Scrollback.Window.{new-IsValid}
use zatch.Daemon.{Pty, Client, SessionDaemon, Effect}
use zatch.Daemon.Inv.{IsValid}
use zatch.Daemon.Packets.{Outcome, handle_client_packets}
use zatch.Daemon.Packets.Once.{Served, Ends, handle_client_packets-Served}
use zatch.Daemon.Output.{handle_pty_output, cleanup}
use zatch.Daemon.Run.{
  Turn, running, ended, life_after, Turned, build_fd_sets, accept_if, evict, drain_replay,
  finish_turn, serve_turn, run_turn, new_daemon,
}
use zatch.Daemon.Run.Steps.{Replayed, drain_replay-Replayed, evict-IsValid, accept_client-IsValid}
use zatch.Daemon.Run.Keep.{cleanup-IsValid, EndsValid, handle_pty_output-EndsValid}

abbrev pub TurnsValid : ℕ → Option Turned → Type 0
TurnsValid size none = Unit {0}
TurnsValid size (some r) = IsValid size r.daemon

module _ (size : ℕ) (t : Turn) where
  finish_turn-TurnsValid :
      (d : SessionDaemon) (es : List Effect)
      → IsValid size d
      → TurnsValid size (finish_turn size t d es)
  unfolding finish_turn
  finish_turn-TurnsValid d es v =
      let e = evict d in
      let ve = evict-IsValid size d v in
      replayed e.0 e.1 ve (drain_replay size e.0.scrollback.buf t.writable t.drains e.0.clients) (
        drain_replay-Replayed size e.0.scrollback.buf t.writable t.drains e.0.clients
          ve.ring.full_size ve.replays)
    where
      told :
          (es2 es3 : List Effect) (o : Option (SessionDaemon × List Effect))
          → EndsValid size o
          → TurnsValid size (elim o [
            | none ↦ none
            | some (d4, es4) ↦ some (record {
              life = life_after t.pty;
              daemon = d4;
              effects = es ++ (es2 ++ (es3 ++ es4));
            })
          ])
      told es2 es3 none q = tt
      told es2 es3 (some (d4, es4)) q = q

      replayed :
          (d2 : SessionDaemon) (es2 : List Effect)
          → IsValid size d2
          → (o : Option (List Client × List Effect)) → Replayed size d2.clients o
          → TurnsValid size (elim o [
            | none ↦ none
            | some (cs, es3) ↦
                elim (handle_pty_output size t.pty t.rounds (record d2 { clients = cs })) [
                  | none ↦ none
                  | some (d4, es4) ↦ some (record {
                    life = life_after t.pty;
                    daemon = d4;
                    effects = es ++ (es2 ++ (es3 ++ es4));
                  })
                ]
          ])
      replayed d2 es2 v2 none q = tt
      replayed d2 es2 v2 (some (cs, es3)) q =
          told es2 es3 (handle_pty_output size t.pty t.rounds (record d2 { clients = cs })) (
            handle_pty_output-EndsValid size t.pty t.rounds (record d2 { clients = cs })
              (record { ring = v2.ring; replays = q.1 }))

  serve_turn-TurnsValid :
      (d : SessionDaemon) (es : List Effect)
      → IsValid size d
      → TurnsValid size (serve_turn size t d es)
  unfolding serve_turn
  serve_turn-TurnsValid d es v =
      let a = accept_if t.listener_ready d t.accept in
      served a.0 a.1 (handle_client_packets size t.batch a.0)
        (handle_client_packets-Served size t.batch a.0 (accept_if-IsValid t.listener_ready))
    where
      accept_if-IsValid : (b : Bool) → IsValid size (accept_if b d t.accept).0
      accept_if-IsValid true = accept_client-IsValid size d t.accept v
      accept_if-IsValid false = v

      served :
          (d1 : SessionDaemon) (es1 : List Effect) (o : Outcome)
          → Ends (Served size t.batch 0 d1) o
          → TurnsValid size
              (elim o [ none ↦ none | some (d2, es2) ↦ finish_turn size t d2 (es ++ (es1 ++ es2)) ])
      served d1 es1 none q = tt
      served d1 es1 (some (d2, es2)) q = finish_turn-TurnsValid d2 (es ++ (es1 ++ es2)) q.valid

  -- A round of `run` that comes back keeps the invariant, whatever clients, terminal and kernel do
  -- in it.
  pub run_turn-TurnsValid :
      (d : SessionDaemon) → IsValid size d → TurnsValid size (run_turn size t d)
  unfolding run_turn build_fd_sets
  run_turn-TurnsValid d v = by_select t.select
    where
      d1 : SessionDaemon
      d1 = (build_fd_sets d t.mode).1

      v1 : IsValid size d1
      v1 = record { ring = v.ring; replays = v.replays }

      es1 : List Effect
      es1 = (build_fd_sets d t.mode).2

      by_select :
          (s : Select)
          → TurnsValid size (elim s [
            | Select.interrupted ↦ some (record { life = running; daemon = d1; effects = es1 })
            | Select.failed ↦ some (record {
              life = ended 0;
              daemon = (cleanup d1).0;
              effects = es1 ++ (cleanup d1).1;
            })
            | Select.ready ↦ serve_turn size t d1 es1
          ])
      by_select Select.interrupted = v1
      by_select Select.failed = cleanup-IsValid size d1 v1
      by_select Select.ready = serve_turn-TurnsValid d1 es1 v1

-- The states that a session goes through, from its start.
pub data Reaches (size : ℕ) (start : SessionDaemon) : SessionDaemon → Type 0 where
  here : Reaches size start start
  turn :
      {d d' : SessionDaemon} (t : Turn) (es : List Effect)
      → Reaches size start d
      → run_turn size t d ≡ some (record { life = running; daemon = d'; effects = es })
      → Reaches size start d'

turned-IsValid :
    (size : ℕ) (o : Option Turned) (r : Turned)
    → o ≡ some r
    → TurnsValid size o
    → IsValid size r.daemon
turned-IsValid size none r e v = absurd (cc)
turned-IsValid size (some q) r e v = let same : q ≡ r = cc in rw (← same) v

Reaches-IsValid :
    (size : ℕ) {start d : SessionDaemon}
    → IsValid size start
    → Reaches size start d
    → IsValid size d
Reaches-IsValid size v here = v
Reaches-IsValid size v (turn {d} t es r e) =
    turned-IsValid size (run_turn size t d) _ e
      (run_turn-TurnsValid size t d (Reaches-IsValid size v r))

-- If the ring's size is not 0, then in every state that a new session reaches by rounds of `run`,
-- the ring's indices lie in its storage, and so do those of each client's replay.
pub new_daemon-IsValid :
    (size listener_fd : ℕ) (pty : Pty) (log_max_size : ℕ) (opened : Option (List ℕ))
    (sockname progname : List ℕ) {d : SessionDaemon}
    → size ≢ 0
    → Reaches size (new_daemon size listener_fd pty log_max_size opened sockname progname) d
    → IsValid size d
unfolding new_daemon
new_daemon-IsValid size listener_fd pty log_max_size opened sockname progname h r =
    Reaches-IsValid size (record { ring = new-IsValid size h; replays = tt }) r
