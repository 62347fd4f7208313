-- ===== src/Daemon/Run/Keep.antt =====
-- `handle_pty_output` and `cleanup` keep the invariant of the daemon's state.
use zatch.Common.{
  All-retain, ℕ, List, [], ◌∷◌, ◌++◌, Option, none, some, Bool, true, false, length, All, ◌==◌,
  Bool-cases, inl, inr, take,
}
use zatch.Os.{Select}
use zatch.Scrollback.{append}
use zatch.Scrollback.Append.{append-IsValid}
use zatch.Daemon.{Client, SessionDaemon, Effect, attached_clients}
use zatch.Daemon.Inv.{IsValid, IsReplay}
use zatch.Daemon.Output.{
  Round, PtyRead, idle, transient, output, gone, send_to_clients, send_loop, push_round, write_pass,
  handle_pty_output, cleanup, Pushed, bufsize, log_write,
}
use zatch.Daemon.Output.Writes.{close_bad-retain}

-- `send_to_clients` only removes clients.
abbrev Removes : (Client → Type 0) → Option (List Client × List Effect) → Type 0
Removes P none = Unit {0}
Removes P (some (cs, es)) = All P cs

push_round-All :
    (P : Client → Type 0) (bytes : List ℕ) (r : Round) (cs : List Client)
    → All P cs
    → All P (push_round bytes r cs).clients
unfolding push_round
push_round-All P bytes r cs h =
    rw (close_bad-retain (write_pass bytes r cs).bad_fds cs) (All-retain P _ cs h)

send_loop-All :
    (P : Client → Type 0) (bytes : List ℕ) (rounds : List Round) (cs : List Client)
    → All P cs
    → Removes P (send_loop bytes rounds cs)
unfolding send_loop
send_loop-All P bytes [] cs h = tt
send_loop-All P bytes (r ∷ rounds) cs h =
    let s = push_round bytes r cs in
    let k = push_round-All P bytes r cs h in
    by_select r.select s k (send_loop bytes rounds s.clients)
      (send_loop-All P bytes rounds s.clients k) (send_loop bytes rounds cs)
      (send_loop-All P bytes rounds cs h)
  where
    go :
        (b : Bool) (s : Pushed) (later : Option (List Client × List Effect))
        → All P s.clients
        → Removes P later
        → Removes P (elim b [
          | false ↦ some (s.clients, s.effects)
          | true ↦ elim later [ none ↦ none | some (cs', es) ↦ some (cs', s.effects ++ es) ]
        ])
    go false s later k l = k
    go true s none k l = tt
    go true s (some (cs', es)) k l = l

    by_select :
        (x : Select) (s : Pushed)
        → All P s.clients
        → (later : Option (List Client × List Effect)) → Removes P later
        → (again : Option (List Client × List Effect)) → Removes P again
        → Removes P (elim x [
          | Select.interrupted ↦ again
          | Select.failed ↦ some (cs, [])
          | Select.ready ↦ elim s.go_on [
            | false ↦ some (s.clients, s.effects)
            | true ↦ elim later [ none ↦ none | some (cs', es) ↦ some (cs', s.effects ++ es) ]
          ]
        ])
    by_select Select.interrupted s k later l again a = a
    by_select Select.failed s k later l again a = h
    by_select Select.ready s k later l again a = go s.go_on s later k l

send_to_clients-All :
    (P : Client → Type 0) (bytes : List ℕ) (rounds : List Round) (cs : List Client)
    → All P cs
    → Removes P (send_to_clients bytes rounds cs)
unfolding send_to_clients
send_to_clients-All P bytes rounds cs h = elim (Bool-cases (length (attached_clients cs) == 0)) [
  | inl e ↦ rw e h
  | inr e ↦ rw e (send_loop-All P bytes rounds cs h)
]

abbrev pub EndsValid : ℕ → Option (SessionDaemon × List Effect) → Type 0
EndsValid size none = Unit {0}
EndsValid size (some (d, es)) = IsValid size d

pub cleanup-IsValid : (size : ℕ) (d : SessionDaemon) → IsValid size d → IsValid size (cleanup d).0
unfolding cleanup
cleanup-IsValid size d v = record { ring = v.ring; replays = v.replays }

pub handle_pty_output-EndsValid :
    (size : ℕ) (r : PtyRead) (rounds : List Round) (d : SessionDaemon)
    → IsValid size d
    → EndsValid size (handle_pty_output size r rounds d)
unfolding handle_pty_output
handle_pty_output-EndsValid size idle rounds d v = v
handle_pty_output-EndsValid size transient rounds d v = v
handle_pty_output-EndsValid size (gone status) rounds d v = cleanup-IsValid size d v
handle_pty_output-EndsValid size (output x xs) rounds d v =
    let bytes = take bufsize (x ∷ xs) in
    stored bytes (send_to_clients bytes rounds d.clients)
      (send_to_clients-All (IsReplay size) bytes rounds d.clients v.replays)
  where
    stored :
        (bytes : List ℕ) (o : Option (List Client × List Effect))
        → Removes (IsReplay size) o
        → EndsValid size (elim o [
          | none ↦ none
          | some (cs, es) ↦ some (
            record d {
              clients = cs;
              scrollback = append size d.scrollback bytes;
              log = log_write d.log bytes;
            },
            es,
          )
        ])
    stored bytes none q = tt
    stored bytes (some (cs, es)) q = record {
      ring = append-IsValid size d.scrollback bytes v.ring;
      replays = q;
    }
