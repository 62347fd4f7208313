-- ===== src/Session/Kill.antt =====
-- `Session::kill` of src/session.rs, with `send_kill` and `connect_socket`.
use Prim.Native.Nat.{bit_and}
use zatch.Common.{
  ℕ, zero, suc, ◌+◌, ◌%◌, List, [], ◌∷◌, ◌++◌, Option, none, some, Bool, true, false, not, ◌==◌,
  if◌then◌else◌, Result, ok, err, codes,
}
use zatch.Os.{Write}
use zatch.Wire.{encode, kill as kill_type, ProtocolError, as_errno, Sent, write_to}
use zatch.Log.App.{LogLevel}
use zatch.Session.{Session, Act, about_session, status, info}

-- `st_mode` says that the file is a socket.
abbrev pub is_socket : ℕ → Bool
is_socket mode = bit_and mode 0o170000 == 0o140000

-- What `connect` gives, an errno if it fails, and the mode of the file, if `metadata` gives one.
-- ECONNREFUSED is 111, and ENOTSOCK 88.
unfoldable pub connect_socket : Result (Unit {0}) ℕ → Option ℕ → Result (Unit {0}) ℕ
connect_socket (ok u) mode = ok u
connect_socket (err e) none = err e
connect_socket (err e) (some mode) =
    if e == 111 then (if not (is_socket mode) then err 88 else err 111) else err e

-- What the kernel answers to one `send_kill`.
pub record Attempt : Type 0 where
  pub connect : Result (Unit {0}) ℕ
  pub mode : Option ℕ
  pub writes : List Write

abbrev pub to_errno : Result (Unit {0}) ProtocolError → Result (Unit {0}) ℕ
to_errno (ok u) = ok u
to_errno (err e) = err (as_errno e)

-- The result of `send_kill`, given that of the connection and the write of the packet `w`.
unfoldable pub after_connect :
    Result (Unit {0}) ℕ
    → List Write
    → Sent (Result (Unit {0}) ProtocolError)
    → Sent (Result (Unit {0}) ℕ)
after_connect (err e) writes w = record { result = some (err e); out = []; left = writes }
after_connect (ok u) writes w = record {
  result = elim w.result [ none ↦ none | some r ↦ some (to_errno r) ];
  out = w.out;
  left = w.left;
}

-- `sig as u8` is the length field of the packet.
unfoldable pub send_kill : Attempt → ℕ → Sent (Result (Unit {0}) ℕ)
send_kill t sig =
    after_connect (connect_socket t.connect t.mode) t.writes
      (write_to (encode kill_type (sig % 256)) t.writes)

-- Polls `k`, `k + 1`, … of `session_gone`, 100 ms apart, until one sees that the socket is gone, but
-- `n` at most.
unfoldable pub polled : ℕ → ℕ → (ℕ → Bool) → Bool
polled zero k gone = false
polled (suc n) k gone = let later = polled n (k + 1) gone in if gone k then true else later

-- What the command leaves: its exit code, what it said, and the bytes that it sent over each of its
-- connections.
pub record Stopped : Type 0 where
  pub code : ℕ
  pub acts : List Act
  pub sent : List (List ℕ)

-- SIGKILL is 9, and SIGHUP 1.
abbrev pub first_sig : Bool → ℕ
first_sig true = 9
first_sig false = 1

abbrev pub first_wait : Bool → ℕ
first_wait true = 10
first_wait false = 1

-- What is said of an errno; `os_error` is the text of `io::Error::from_raw_os_error`. ENOENT is 2.
unfoldable pub refused : (ℕ → List ℕ) → Session → ℕ → List ℕ
refused os_error sess e =
    if e == 2
    then about_session sess (codes " does not exist")
    else if e == 111
    then about_session sess (codes " is not running")
    else sess.sockname ++ (codes ": " ++ os_error e)

-- The second half of a stop that is not forced, once the second packet is written with this result;
-- `sent` are the bytes of both.
unfoldable pub escalate :
    Session → (ℕ → Bool) → List (List ℕ) → Option (Result (Unit {0}) ℕ) → Option Stopped
escalate sess gone sent none = none
escalate sess gone sent (some r) = some (
    if polled 3 1 gone
    then record {
      code = 0;
      acts = status sess LogLevel.info (about_session sess (codes " killed"));
      sent = sent;
    }
    else record {
      code = 1;
      acts = status sess LogLevel.error (about_session sess (codes " did not stop"));
      sent = sent;
    })

-- The waiting, once the first packet is sent, which is `out`.
unfoldable pub await_stop : Session → Bool → (ℕ → Bool) → List ℕ → Attempt → Option Stopped
await_stop sess force gone out second =
    let s = send_kill second 9 in
    let later = escalate sess gone (out ∷ s.out ∷ []) s.result in
    if polled (first_wait force) 0 gone
    then some (record {
      code = 0;
      acts = info sess (about_session sess (codes (if force then " killed" else " stopped")));
      sent = out ∷ [];
    })
    else if force
    then some (record {
      code = 1;
      acts = status sess LogLevel.error (about_session sess (codes " did not stop"));
      sent = out ∷ [];
    })
    else later

-- `gone k` is what poll `k` sees. No result: a write of a packet has not come back.
unfoldable pub kill :
    (ℕ → List ℕ) → Session → Bool → Attempt → (ℕ → Bool) → Attempt → Option Stopped
kill os_error sess force first gone second =
    let s = send_kill first (first_sig force) in
    let waited = await_stop sess force gone s.out second in
    elim s.result [
      | none ↦ none
      | some (err e) ↦ some (record {
        code = 1;
        acts = status sess LogLevel.error (refused os_error sess e);
        sent = s.out ∷ [];
      })
      | some (ok u) ↦ waited
    ]
