-- ===== src/Session/Query.antt =====
-- `cmd_info`, `cmd_detach` and `cmd_current` of src/session.rs.
pub mod Reports
mod Tests
use zatch.Common.{ℕ, List, [], ◌∷◌, ◌++◌, Option, none, some, Bool, Result, ok, err, codes, take}
use zatch.Os.{Read, Write}
use zatch.Wire.{info as info_type, force_detach, new, ProtocolError, Sent, write_to}
use zatch.Log.App.{LogLevel}
use zatch.Util.Names.{session_shortname, rsplit_next}
use zatch.Util.Parse.{trim_end}
use zatch.Session.{Session, Act, print, eprint, app_log, about_session, status, info, warn}
use zatch.Session.Kill.{connect_socket, refused}

-- What a command leaves: its exit code, what it said, and the bytes that the session was sent.
pub record Asked : Type 0 where
  pub code : ℕ
  pub acts : List Act
  pub sent : List ℕ

-- The answer of the session, read until the connection ends: `cmd_info`'s loop. No result: a read has
-- not come back. The text is ASCII, on which `from_utf8_lossy` is the identity; a read takes at most
-- 4096 bytes of those that wait.
unfoldable pub read_answer : List Read → Option (List ℕ)
read_answer [] = none
read_answer (Read.chunk [] ∷ answers) = some []
read_answer (Read.chunk (b ∷ bs) ∷ answers) = elim (read_answer answers) [
  | none ↦ none
  | some more ↦ some ((b ∷ bs) ++ more)
]
read_answer (Read.eof ∷ answers) = some []
read_answer (Read.interrupted ∷ answers) = read_answer answers
read_answer (Read.would_block ∷ answers) = some []
read_answer (Read.failed e ∷ answers) = some []

-- The connection is refused with an errno.
unfoldable pub not_asked : (ℕ → List ℕ) → Session → ℕ → Asked
not_asked os_error sess e = record {
  code = 1;
  acts = status sess LogLevel.error (refused os_error sess e);
  sent = [];
}

-- What `cmd_info` does once its packet is written.
unfoldable pub informed :
    Session → Option (Result (Unit {0}) ProtocolError) → List ℕ → Option (List ℕ) → Option Asked
informed sess none out answer = none
informed sess (some (err e)) out answer = some (record {
  code = 1;
  acts =
      warn sess
        (codes "failed to query session '" ++ (session_shortname sess.sockname ++ codes "'"));
  sent = out;
})
informed sess (some (ok u)) out none = none
informed sess (some (ok u)) out (some text) =
    let name = session_shortname sess.sockname in
    some (record {
      code = 0;
      acts =
          app_log LogLevel.info (codes "'" ++ (name ++ (codes "': " ++ trim_end text)))
          ∷ print (sess.progname ++ (codes ": '" ++ (name ++ (codes "': " ++ text))))
          ∷ [];
      sent = out;
    })

unfoldable pub cmd_info :
    (ℕ → List ℕ) → Session → Result (Unit {0}) ℕ → Option ℕ → List Write → List Read → Option Asked
cmd_info os_error sess connected mode writes answers =
    let w = write_to (new info_type) writes in
    elim (connect_socket connected mode) [
      | err e ↦ some (not_asked os_error sess e)
      | ok u ↦ informed sess w.result w.out (read_answer answers)
    ]

-- What `cmd_detach` does once its packet is written.
unfoldable pub detach_asked :
    Session → Option (Result (Unit {0}) ProtocolError) → List ℕ → Option Asked
detach_asked sess none out = none
detach_asked sess (some (err e)) out = some (record {
  code = 1;
  acts = warn sess (
      codes "failed to send detach request to '" ++ (session_shortname sess.sockname ++ codes "'"));
  sent = out;
})
detach_asked sess (some (ok u)) out =
    some
      (record { code = 0; acts = info sess (about_session sess (codes " detached")); sent = out })

unfoldable pub cmd_detach :
    (ℕ → List ℕ) → Session → Result (Unit {0}) ℕ → Option ℕ → List Write → Option Asked
cmd_detach os_error sess connected mode writes =
    let w = write_to (new force_detach) writes in
    elim (connect_socket connected mode) [
      | err e ↦ some (not_asked os_error sess e)
      | ok u ↦ detach_asked sess w.result w.out
    ]

-- There is no session around the process.
abbrev no_current : Session → Asked
no_current sess = record {
  code = 1;
  acts =
      app_log LogLevel.error (codes "not in a session")
      ∷ eprint (sess.progname ++ codes ": not in a session\n")
      ∷ [];
  sent = [];
}

-- `cmd_current`: `env` is the value of the variable that names the sessions around the process.
unfoldable pub cmd_current : Session → Option (List ℕ) → Asked
cmd_current sess none = no_current sess
cmd_current sess (some []) = no_current sess
cmd_current sess (some (c ∷ p)) =
    let name = rsplit_next b'/' [] (rsplit_next b':' [] (c ∷ p)) in
    record {
      code = 0;
      acts =
          app_log LogLevel.info (codes "current session '" ++ (name ++ codes "'"))
          ∷ print (name ++ codes "\n")
          ∷ [];
      sent = [];
    }
