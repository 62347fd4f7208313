-- ===== src/Session/Connect.antt =====
-- `Session::attach` of src/session.rs up to its event loop, with `try_connect` and `replay_log`.
pub mod History
pub mod Example
mod Tests
use zatch.Common.{
  ℕ, List, [], ◌∷◌, ◌++◌, Option, none, some, Bool, true, false, not, ◌&&◌, ◌==◌, if◌then◌else◌,
  Result, ok, err, codes,
}
use zatch.Os.{Write}
use zatch.Wire.{Packet, attach, redraw, as_u8, new, ProtocolError, Sent, write_to}
use zatch.Wire.Methods.{ClearMethod, redraw_as_u8}
use zatch.Wire.Winsize.{Winsize, winsize_raw}
use zatch.Log.App.{LogLevel}
use zatch.Util.Names.{session_shortname}
use zatch.Session.{
  Session, Act, output, print, app_log, terminal, about_session, notice, status, warn,
}
use zatch.Session.Kill.{connect_socket, refused}
use zatch.Session.Nesting.{inside}

-- A read of the log: bytes, of which none is the end, or an errno.
pub data LogRead : Type 0 where
  chunk : List ℕ → LogRead
  failed : ℕ → LogRead

-- The loop of `replay_log`.
unfoldable pub replay_reads : (ℕ → List ℕ) → Session → List LogRead → List Act
replay_reads os_error sess [] = []
replay_reads os_error sess (chunk [] ∷ reads) = []
replay_reads os_error sess (chunk (b ∷ bs) ∷ reads) =
    output (b ∷ bs) ∷ replay_reads os_error sess reads
replay_reads os_error sess (failed e ∷ reads) = warn sess (
    codes "error reading log for '"
    ++ (session_shortname sess.sockname ++ (codes "': " ++ os_error e)))

-- What a call leaves: its result, and what it did.
pub record Did (A : Type 0) : Type 0 where
  pub result : A
  pub acts : List Act

-- `replay_log`: `log` is what the reads of the log give, if it can be opened. ECONNREFUSED is 111.
unfoldable pub replay_log : (ℕ → List ℕ) → Session → Option (List LogRead) → ℕ → Did Bool
unfolding replay_reads
replay_log os_error sess none saved = record { result = false; acts = [] }
replay_log os_error sess (some reads) saved = record {
  result = true;
  acts =
      replay_reads os_error sess reads
      ++ (if saved == 111
          then print (notice sess (about_session sess (codes " ended unexpectedly"))) ∷ []
          else []);
}

-- What is said of an errno of the connection. ENOTSOCK is 88.
unfoldable pub not_attached : (ℕ → List ℕ) → Session → ℕ → List ℕ
not_attached os_error sess e =
    if e == 88
    then codes "'" ++ (session_shortname sess.sockname ++ codes "' is not a valid session")
    else refused os_error sess e

-- `try_connect`: its result is whether the log was shown, or an errno. `env` is the value of the
-- variable that names the sessions around this process.
unfoldable pub try_connect :
    (ℕ → List ℕ)
    → Session
    → Option (List ℕ)
    → Bool
    → Result (Unit {0}) ℕ
    → Option ℕ
    → Option (List LogRead)
    → Did (Result Bool ℕ)
try_connect os_error sess env noerror connected mode log =
    let within =
      codes "cannot attach to session '"
      ++ (session_shortname sess.sockname ++ codes "' from within itself") in
    let shown = replay_log os_error sess log 0 in
    let tried : Did (Result Bool ℕ) = elim (connect_socket connected mode) [
      | ok u ↦ record { result = ok shown.result; acts = shown.acts }
      | err e ↦
          let dead = replay_log os_error sess log e in
          let told =
            dead.acts
            ++ (if dead.result
                then []
                else status sess LogLevel.error (not_attached os_error sess e)) in
          record { result = err e; acts = if noerror then [] else told }
    ] in
    if inside env sess.sockname
    then record { result = err 1; acts = if noerror then [] else status sess LogLevel.error within }
    else tried

-- What `attach` sends: whether the ring's contents are not wanted, and then how to redraw.
unfoldable pub attach_packet : Bool → Packet
unfolding new
attach_packet skip_ring = record (new attach) { len = if skip_ring then 1 else 0 }

unfoldable pub redraw_packet : Session → Winsize → Packet
unfolding as_u8 redraw_as_u8 winsize_raw
redraw_packet sess ws = record {
  msg_type = as_u8 redraw;
  len = redraw_as_u8 sess.redraw_method;
  payload = winsize_raw ws;
}

-- How an attachment has begun: its exit code, or none where the event loop begins; what it did, and
-- the bytes that the session was sent.
pub record Begun : Type 0 where
  pub code : Option ℕ
  pub acts : List Act
  pub sent : List ℕ

-- The terminal is cleared, or a line is ended.
unfoldable pub clear_screen : Session → Bool → List Act
clear_screen sess skip_ring =
    let fresh : Bool = elim sess.clear_method [
      | ClearMethod.move ↦ not sess.no_ansiterm
      | ClearMethod.unspec ↦ false
      | ClearMethod.none ↦ false
    ] in
    if fresh
    then output (0x1b ∷ codes "c") ∷ []
    else if not sess.quiet && not skip_ring
    then output (codes "\r\n") ∷ []
    else []

-- A packet was written with this result; `what` is the request.
unfoldable pub requested :
    Session
    → List ℕ
    → Option (Result (Unit {0}) ProtocolError)
    → List ℕ
    → Option Begun
    → Option Begun
requested sess what none out rest = none
requested sess what (some (err e)) out rest = some (record {
  code = some 1;
  acts = warn sess (
      codes "failed to send "
      ++ (what ++ (codes " request to '" ++ (session_shortname sess.sockname ++ codes "'"))));
  sent = out;
})
requested sess what (some (ok u)) out none = none
requested sess what (some (ok u)) out (some b) = some (record b { sent = out ++ b.sent })

-- The body of `attach` behind `try_connect`.
unfoldable pub begin : Session → Winsize → Bool → List Write → Option Begun
begin sess ws skip_ring writes =
    let first = write_to (attach_packet skip_ring) writes in
    let second = write_to (redraw_packet sess ws) first.left in
    requested sess (codes "attach") first.result first.out (
      requested sess (codes "redraw") second.result second.out
        (some (record { code = none; acts = []; sent = [] })))

-- What was done before comes first.
abbrev pub acts_before : List Act → Option Begun → Option Begun
acts_before acts none = none
acts_before acts (some b) = some (record b { acts = acts ++ b.acts })

-- `attach`: `writes` are the answers to the writes of its packets. No result: one of them has not come
-- back.
unfoldable pub attach_start :
    (ℕ → List ℕ)
    → Session
    → Option (List ℕ)
    → Bool
    → Result (Unit {0}) ℕ
    → Option ℕ
    → Option (List LogRead)
    → Winsize
    → List Write
    → Option Begun
unfolding begin clear_screen
attach_start os_error sess env noerror connected mode log ws writes =
    let tried = try_connect os_error sess env noerror connected mode log in
    elim tried.result [
      | err code ↦ some (record { code = some code; acts = tried.acts; sent = [] })
      | ok skip_ring ↦
          acts_before (tried.acts ++ (terminal false ∷ clear_screen sess skip_ring))
            (begin sess ws skip_ring writes)
    ]
