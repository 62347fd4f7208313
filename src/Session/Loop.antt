-- ===== src/Session/Loop.antt =====
-- `event_loop` of src/session.rs, with `handle_server_data` and `handle_stdin_data`.
use zatch.Common.{
  ℕ, ◌-◌, List, [], ◌∷◌, ◌++◌, Option, none, some, Bool, true, false, not, ◌&&◌, length, take,
  replicate, ◌==◌, if◌then◌else◌, codes,
}
use zatch.Os.{Select}
use zatch.Wire.{Packet, new, as_u8, push, attach, detach, winch, redraw}
use zatch.Wire.Methods.{redraw_as_u8}
use zatch.Wire.Winsize.{Winsize, winsize_raw}
use zatch.Log.App.{LogLevel}
use zatch.Util.Names.{session_shortname}
use zatch.Session.{
  Session, Act, send, output, print, app_log, terminal, stop, about_session, notice,
  restore_and_exit,
}

-- What a read of a descriptor gives: at least one byte, the end, EINTR or EAGAIN, or another error.
pub data Given : Type 0 where
  bytes : ℕ → List ℕ → Given
  closed transient failed : Given

-- The flags SHOULD_DIE and WIN_CHANGED, which the signal handlers set.
pub record Flags : Type 0 where
  pub should_die : Bool
  pub win_changed : Bool

-- What a part of the loop's body leaves; `over` is the status with which the process has ended.
pub record Ran : Type 0 where
  pub acts : List Act
  pub flags : Flags
  pub over : Option ℕ

abbrev pub went_on : List Act → Flags → Ran
went_on acts flags = record { acts = acts; flags = flags; over = none }

abbrev pub ended : List Act → Flags → ℕ → Ran
ended acts flags code = record {
  acts = acts ++ restore_and_exit code;
  flags = flags;
  over = some code;
}

-- The parts of the body run one after another until the process ends.
abbrev pub and_then : Ran → (Flags → Ran) → Ran
and_then r next =
    let later = next r.flags in
    elim r.over [ none ↦ record later { acts = r.acts ++ later.acts } | some code ↦ r ]

-- A message about the session, in the application log and on the terminal.
unfoldable pub told : Session → LogLevel → List ℕ → List Act
unfolding about_session notice
told sess level what =
    app_log level (about_session sess what) ∷ print (notice sess (about_session sess what)) ∷ []

-- `age` is the text of the session's age.
unfoldable pub handle_server_data : Session → List ℕ → Given → Flags → Ran
handle_server_data sess age (Given.bytes x xs) flags =
    went_on (output (take 4096 (x ∷ xs)) ∷ []) flags
handle_server_data sess age Given.closed flags =
    ended (if sess.quiet then [] else told sess LogLevel.info (codes " exited after " ++ age)) flags
      0
handle_server_data sess age Given.transient flags = went_on [] flags
handle_server_data sess age Given.failed flags =
    ended (told sess LogLevel.error (codes " read error after " ++ age)) flags 1

-- The packet with what was read, of which a read takes 8 bytes at most.
unfoldable pub push_packet : List ℕ → Packet
unfolding as_u8
push_packet typed = record {
  msg_type = as_u8 push;
  len = length typed;
  payload = typed ++ replicate (8 - length typed) 0;
}

-- The suspend key: the client detaches, stops, and attaches again when it is continued. The detach
-- packet is the push packet with another type.
unfoldable pub suspend : Session → List ℕ → Winsize → List Act
unfolding as_u8 new redraw_as_u8 winsize_raw push_packet
suspend sess typed ws =
    send (record (push_packet typed) { msg_type = as_u8 detach })
    ∷ terminal true
    ∷ output (codes "\r\n")
    ∷ stop
    ∷ terminal false
    ∷ send (new attach)
    ∷ send (record {
      msg_type = as_u8 redraw;
      len = redraw_as_u8 sess.redraw_method;
      payload = winsize_raw ws;
    })
    ∷ []

abbrev pub is_detach : Option ℕ → ℕ → Bool
is_detach none x = false
is_detach (some c) x = x == c

-- `vsusp` is the suspend key of the terminal, and `ws` its window size.
unfoldable pub handle_stdin_data : Session → List ℕ → ℕ → Winsize → Given → Flags → Ran
handle_stdin_data sess age vsusp ws Given.transient flags = went_on [] flags
handle_stdin_data sess age vsusp ws Given.failed flags =
    ended
      (app_log LogLevel.error (
          codes "stdin read failed for session '" ++ (session_shortname sess.sockname ++ codes "'"))
        ∷ [])
      flags 1
handle_stdin_data sess age vsusp ws Given.closed flags =
    ended
      (app_log LogLevel.info
          (codes "stdin closed for session '" ++ (session_shortname sess.sockname ++ codes "'"))
        ∷ [])
      flags 1
handle_stdin_data sess age vsusp ws (Given.bytes x xs) flags =
    let typed = take 8 (x ∷ xs) in
    if not sess.no_suspend && x == vsusp
    then went_on (suspend sess typed ws) flags
    else if is_detach sess.detach_char x
    then ended (told sess LogLevel.info (codes " detached after " ++ age)) flags 0
    else went_on (send (push_packet typed) ∷ [])
        (if x == 0x0c then record flags { win_changed = true } else flags)

-- WIN_CHANGED is taken, and the new window size sent.
unfoldable pub send_winch : Winsize → Flags → Ran
unfolding winsize_raw as_u8
send_winch ws flags =
    if flags.win_changed
    then went_on (send (record { msg_type = as_u8 winch; len = 0; payload = winsize_raw ws }) ∷ [])
        (record flags { win_changed = false })
    else went_on [] flags

-- What the kernel gives a round of the loop: `server` and `stdin` are the reads of the descriptors
-- that `select` reported, if it did.
pub record Tick : Type 0 where
  pub select : Select
  pub server : Option Given
  pub stdin : Option Given
  pub vsusp : ℕ
  pub ws : Winsize
  pub age : List ℕ

abbrev pub server_part : Session → Tick → Flags → Ran
server_part sess t flags = elim t.server [
  | none ↦ went_on [] flags
  | some g ↦ handle_server_data sess t.age g flags
]

abbrev pub stdin_part : Session → Tick → Flags → Ran
stdin_part sess t flags = elim t.stdin [
  | none ↦ went_on [] flags
  | some g ↦ handle_stdin_data sess t.age t.vsusp t.ws g flags
]

-- One round of `event_loop`.
unfoldable pub event_turn : Session → Tick → Flags → Ran
event_turn sess t flags =
    let served = server_part sess t flags in
    let read = and_then served (stdin_part sess t) in
    let round = and_then read (send_winch t.ws) in
    if flags.should_die
    then ended (told sess LogLevel.info (codes " detached after " ++ t.age)) flags 0
    else elim t.select [
      | Select.interrupted ↦ went_on [] flags
      | Select.failed ↦ ended (told sess LogLevel.error (codes " select failed")) flags 1
      | Select.ready ↦ round
    ]
