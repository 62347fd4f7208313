-- ===== src/Daemon/Output.antt =====
-- `send_to_clients`, `handle_pty_output` and `cleanup` of src/session_daemon.rs: where the output of
-- the session's terminal goes.
pub mod Writes
pub mod Delivery
pub mod Pty
use zatch.Common.{
  ℕ, zero, suc, ◌+◌, min, List, [], ◌∷◌, ◌++◌, Option, none, some, Bool, true, false, not, ◌&&◌,
  ◌||◌, length, take, retain, ltb, ◌==◌, if◌then◌else◌, codes,
}
use zatch.Os.{Read, Write, Select}
use zatch.Scrollback.{append}
use zatch.Util.Names.{session_shortname}
use zatch.Daemon.{
  Client, SessionDaemon, Effect, wrote, close, log_closed, unlink, exit, attached_clients,
}
use zatch.Daemon.Packets.{Outcome, after_calls}

-- The kernel's answers in one round of the inner loop: the result of `select`, whether the listener is
-- readable, which clients are writable, and the answer to the `write` to each.
pub record Round : Type 0 where
  pub select : Select
  pub listener_ready : Bool
  pub writable : ℕ → Bool
  pub write : ℕ → Write

-- What the loop over the clients collects.
pub record Pass : Type 0 where
  pub bad_fds : List ℕ
  pub any_written : Bool
  pub effects : List Effect

-- The write of the data to one client, and what the later clients give.
unfoldable pub write_one : List ℕ → Client → Write → Pass → Pass
write_one bytes c (Write.room space) rest =
    let n = min (length bytes) space in
    if n == length bytes
    then record rest { any_written = true; effects = wrote c.fd bytes ∷ rest.effects }
    else record rest {
      bad_fds = c.fd ∷ rest.bad_fds;
      effects = wrote c.fd (take n bytes) ∷ rest.effects;
    }
write_one bytes c Write.would_block rest = rest
write_one bytes c Write.interrupted rest = record rest { bad_fds = c.fd ∷ rest.bad_fds }
write_one bytes c (Write.failed e) rest = record rest { bad_fds = c.fd ∷ rest.bad_fds }

unfoldable pub write_pass : List ℕ → Round → List Client → Pass
unfolding write_one
write_pass bytes r [] = record { bad_fds = []; any_written = false; effects = [] }
write_pass bytes r (c ∷ cs) =
    let rest = write_pass bytes r cs in
    if not c.attached || not (r.writable c.fd) then rest else write_one bytes c (r.write c.fd) rest

-- Close and remove the clients whose write failed.
unfoldable pub close_bad : List ℕ → List Client → List Client × List Effect
close_bad [] cs = (cs, [])
close_bad (fd ∷ fds) cs =
    let (cs', es) = close_bad fds (retain (λ c. not (c.fd == fd)) cs) in (cs', close fd ∷ es)

-- One round after `select` has come back: the state, the system calls, and whether to go on.
pub record Pushed : Type 0 where
  pub clients : List Client
  pub effects : List Effect
  pub go_on : Bool

unfoldable pub push_round : List ℕ → Round → List Client → Pushed
unfolding write_pass close_bad
push_round bytes r cs =
    let p = write_pass bytes r cs in
    let (cs', closed) = close_bad p.bad_fds cs in
    record {
      clients = cs';
      effects = p.effects ++ closed;
      go_on = not p.any_written && not r.listener_ready && not (length (attached_clients cs') == 0);
    }

-- The loop, on the client list alone.
unfoldable pub send_loop : List ℕ → List Round → List Client → Option (List Client × List Effect)
unfolding push_round
send_loop bytes [] cs = none
send_loop bytes (r ∷ rounds) cs = elim r.select [
  | Select.interrupted ↦ send_loop bytes rounds cs
  | Select.failed ↦ some (cs, [])
  | Select.ready ↦
      let p = push_round bytes r cs in
      let later = send_loop bytes rounds p.clients in
      elim p.go_on [
        | false ↦ some (p.clients, p.effects)
        | true ↦ elim later [ none ↦ none | some (cs', es) ↦ some (cs', p.effects ++ es) ]
      ]
]

unfoldable pub send_to_clients :
    List ℕ → List Round → List Client → Option (List Client × List Effect)
unfolding send_loop
send_to_clients bytes rounds cs =
    if length (attached_clients cs) == 0 then some (cs, []) else send_loop bytes rounds cs

-- `[progname: session 'name' ended]`, with the line ends round it.
unfoldable pub ended_marker : List ℕ → List ℕ → List ℕ
unfolding session_shortname
ended_marker progname sockname =
    codes "\r\n["
    ++ (progname ++ (codes ": session '" ++ (session_shortname sockname ++ codes "' ended]\r\n")))

log_end : Option (List ℕ) → List ℕ → List Effect
log_end none marker = []
log_end (some l) marker = log_closed (l ++ marker) ∷ []

unfoldable pub cleanup : SessionDaemon → SessionDaemon × List Effect
unfolding log_end ended_marker
cleanup d = (
  record d { log = none },
  log_end d.log (ended_marker d.progname d.sockname) ++ unlink d.sockname ∷ [],
)

-- What the terminal gives: it is not readable; it has bytes, of which a read takes at most BUFSIZE;
-- EINTR or EAGAIN; or it is at its end, and `waitpid` gives the exit status of the child, if it
-- exited by itself.
pub data PtyRead : Type 0 where
  idle transient : PtyRead
  output : ℕ → List ℕ → PtyRead
  gone : Option ℕ → PtyRead

abbrev pub bufsize : ℕ
bufsize = 4096

abbrev pub log_write : Option (List ℕ) → List ℕ → Option (List ℕ)
log_write none bytes = none
log_write (some l) bytes = some (l ++ bytes)

abbrev exit_code : Option ℕ → ℕ
exit_code none = 1
exit_code (some status) = status

-- After the effect `exit` the process is gone.
unfoldable pub handle_pty_output : ℕ → PtyRead → List Round → SessionDaemon → Outcome
unfolding append send_to_clients cleanup
handle_pty_output size idle rounds d = some (d, [])
handle_pty_output size transient rounds d = some (d, [])
handle_pty_output size (output x xs) rounds d =
    let bytes = take bufsize (x ∷ xs) in
    elim (send_to_clients bytes rounds d.clients) [
      | none ↦ none
      | some (cs, es) ↦ some (
        record d {
          clients = cs;
          scrollback = append size d.scrollback bytes;
          log = log_write d.log bytes;
        },
        es,
      )
    ]
handle_pty_output size (gone status) rounds d =
    let (d', es) = cleanup d in some (d', es ++ exit (exit_code status) ∷ [])
