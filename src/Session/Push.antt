-- ===== src/Session/Push.antt =====
-- `Session::push` of src/session.rs: standard input goes to the terminal of a session.
pub mod Arrives
mod Tests
use zatch.Common.{ℕ, ◌+◌, List, [], ◌∷◌, ◌++◌, Option, none, some, Result, ok, err, take, codes}
use zatch.Os.{Write}
use zatch.Wire.{ProtocolError, eof, would_block, io, Sent, write_to}
use zatch.Log.App.{LogLevel}
use zatch.Session.{Session, Act, status}
use zatch.Session.Kill.{connect_socket}
use zatch.Session.Loop.{push_packet}

-- What a read of standard input gives: bytes, of which a call takes 8 at most, the end, or an errno.
pub data Stdin : Type 0 where
  got : ℕ → List ℕ → Stdin
  closed : Stdin
  failed : ℕ → Stdin

-- The kernel's answers in one round of the loop.
pub record PushRound : Type 0 where
  pub read : Stdin
  pub writes : List Write

-- What the command leaves: its exit code, what it said, and the bytes that the session was sent.
pub record Piped : Type 0 where
  pub code : ℕ
  pub acts : List Act
  pub sent : List ℕ

-- The text of `io::Error::last_os_error()` behind a failed `write_to`; `stale` is the text of an
-- errno that an earlier call left.
abbrev write_error : (ℕ → List ℕ) → List ℕ → ProtocolError → List ℕ
write_error os_error stale eof = stale
write_error os_error stale would_block = os_error 11
write_error os_error stale (io e) = os_error e

unfoldable pub push_failed : Session → List ℕ → List ℕ → Piped
push_failed sess text sent = record {
  code = 1;
  acts = status sess LogLevel.error (sess.sockname ++ (codes ": " ++ text));
  sent = sent;
}

-- A packet was written with this result.
unfoldable pub push_wrote :
    (ℕ → List ℕ)
    → List ℕ
    → Session
    → Option (Result (Unit {0}) ProtocolError)
    → List ℕ
    → Option Piped
    → Option Piped
push_wrote os_error stale sess none out rest = none
push_wrote os_error stale sess (some (err e)) out rest =
    some (push_failed sess (write_error os_error stale e) out)
push_wrote os_error stale sess (some (ok u)) out none = none
push_wrote os_error stale sess (some (ok u)) out (some p) = some (record p { sent = out ++ p.sent })

-- The loop. No result: a call has not come back.
unfoldable pub push_loop : (ℕ → List ℕ) → List ℕ → Session → List PushRound → Option Piped
push_loop os_error stale sess [] = none
push_loop os_error stale sess (r ∷ rounds) = elim r.read [
  | closed ↦ some (record { code = 0; acts = []; sent = [] })
  | failed e ↦ some (push_failed sess (os_error e) [])
  | got x xs ↦
      let w = write_to (push_packet (take 8 (x ∷ xs))) r.writes in
      push_wrote os_error stale sess w.result w.out (push_loop os_error stale sess rounds)
]

unfoldable pub push :
    (ℕ → List ℕ) → List ℕ → Session → Result (Unit {0}) ℕ → Option ℕ → List PushRound → Option Piped
unfolding push_loop
push os_error stale sess connected mode rounds = elim (connect_socket connected mode) [
  | err e ↦ some (push_failed sess (os_error e) [])
  | ok u ↦ push_loop os_error stale sess rounds
]
