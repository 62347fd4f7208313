-- ===== src/Create/Begins.antt =====
-- `new` starts a session and attaches to it; no command that starts a session touches one that runs.
use zatch.Common.{
  ℕ, ◌≡◌, ◌≤◌, inl, inr, List, [], ◌++◌, ap, ◌∙◌, Option, none, some, true, false, ◌||◌, ◌==◌,
  Result, ok, err, codes, refl, arith, Bool-cases,
}
use zatch.Os.{Read, progress}
use zatch.Wire.{to_bytes}
use zatch.Wire.Returns.{Steady}
use zatch.Wire.Receive.{stream, Flows}
use zatch.Wire.Winsize.{IsU16}
use zatch.Daemon.{Client, SessionDaemon}
use zatch.Daemon.Inv.{IsValid}
use zatch.Daemon.Packets.{Batch}
use zatch.Session.{Session, Act}
use zatch.Session.Kill.{connect_socket}
use zatch.Session.Nesting.{inside}
use zatch.Session.Connect.{Begun, attach_start, attach_packet, redraw_packet}
use zatch.Session.Connect.History.{has, Starts, Served, attach_start-begun, requests-Served}
use zatch.Session.Directory.{Files, lookup}
use zatch.Start.{probe}
use zatch.Start.Listens.{Allows, fresh, session_daemon_main-Begins, session_daemon_main-refused}
use zatch.Create.{
  Dial, World, Ran, finished, began, attach_by, require_tty, prepared, path_said, Prompt, unasked,
  agreed, declined, prompt_attach_if_running, unless_running, attach_new, after_start, cmd_new,
  cmd_start, cmd_run,
}

-- There is no prompt where nothing answers.
unasked_lem :
    (sess : Session) (w : World) (e : ℕ)
    → connect_socket w.asked.0 w.asked.1 ≡ err e
    → prompt_attach_if_running sess w ≡ unasked
unfolding prompt_attach_if_running
unasked_lem sess w e h = elim (Bool-cases (sess.dont_have_tty || sess.quiet)) [
  | inl q ↦ rw q refl
  | inr q ↦ rw (q, h) refl
]

-- A session is new, and the client is attached to it.
pub record Attached (sess : Session) (w : World) (o : Option Ran) : Type 0 where
  pub ran : Ran
  pub returns : o ≡ some ran
  pub goes_on : ran.code ≡ none
  pub sent :
      ran.sent
      ≡ to_bytes (attach_packet (has w.second.log)) ++ to_bytes (redraw_packet sess w.second.ws)
  pub made : lookup sess.sockname ran.files ≡ some (fresh w.kernel.bind)

began-Attached :
    (sess : Session) (w : World) (acts : List Act) (files : Files) (o : Option Begun)
    → Starts sess w.second.ws w.second.log o
    → lookup sess.sockname files ≡ some (fresh w.kernel.bind)
    → Attached sess w (began acts files o)
began-Attached sess w acts files none s l = let r = s.returns in cc
began-Attached sess w acts files (some b) s l =
    let r = s.returns in
    let b_is : b ≡ s.begun = cc in
    record {
      ran = record { code = b.code; acts = acts ++ b.acts; sent = b.sent; files = files };
      returns = refl;
      goes_on = rw b_is s.goes_on;
      sent = rw b_is s.sent;
      made = l;
    }

require_tty-none : (sess : Session) → sess.dont_have_tty ≡ false → require_tty sess ≡ none
unfolding require_tty
require_tty-none sess h = rw (require_tty, h) refl

-- An attachment whose connection succeeds.
attach_by-Starts :
    (os_error : ℕ → List ℕ) (sess : Session) (env : Option (List ℕ)) (d : Dial)
    → d.connect ≡ ok tt
    → inside env sess.sockname ≡ false
    → Steady d.writes
    → 20 ≤ progress d.writes
    → Starts sess d.ws d.log (attach_by os_error sess env false d)
unfolding attach_by
attach_by-Starts os_error sess env d answers out s h = by_answer d.connect answers
  where
    by_answer :
        (a : Result (Unit {0}) ℕ)
        → a ≡ ok tt
        → Starts sess d.ws d.log (attach_start os_error sess env false a d.mode d.log d.ws d.writes)
    by_answer (err x) e = cc
    by_answer (ok u) e =
        attach_start-begun os_error sess env false d.mode d.log d.ws d.writes out s h

-- The session was started, and the rest is done.
code_zero : (n : ℕ) → n ≡ 0 → (n == 0) ≡ true
code_zero n h = ground arith

-- The command, once it has come back, has changed no file.
abbrev pub Untouched : World → Option Ran → Type 0
Untouched w none = Unit {0}
Untouched w (some r) = r.files ≡ w.files

module _ (os_error : ℕ → List ℕ) (sess : Session) (w : World) where
  attach_new-Attached :
      (before : List Act) (files : Files)
      → sess.dont_have_tty ≡ false
      → w.second.connect ≡ ok tt
      → inside w.env sess.sockname ≡ false
      → Steady w.second.writes
      → 20 ≤ progress w.second.writes
      → lookup sess.sockname files ≡ some (fresh w.kernel.bind)
      → Attached sess w (attach_new os_error sess w before files)
  unfolding attach_new
  attach_new-Attached before files tty answers out s h l =
      rw (attach_new, require_tty-none sess tty)
        (began-Attached sess w before files (attach_by os_error sess w.env false w.second)
          (attach_by-Starts os_error sess w.env w.second answers out s h) l)

  after_start-Attached :
      (before : List Act) (what : List ℕ) (next : List Act → Files → Option Ran) (pid : ℕ)
      → w.kernel.fork ≡ ok pid
      → w.kernel.pipe ≡ true
      → w.made ≡ ok tt
      → lookup sess.sockname w.files ≡ none
      → Allows w.kernel.bind
      → ((acts : List Act) (files : Files)
          → lookup sess.sockname files ≡ some (fresh w.kernel.bind)
          → Attached sess w (next acts files))
      → Attached sess w (after_start os_error sess w before what next)
  unfolding after_start
  after_start-Attached before what next pid forked piped made free allows k =
      let b =
        session_daemon_main-Begins os_error sess w.kernel w.made w.run pid w.files forked piped in
      let zero_code = b.starts made free allows in
      rw (after_start, code_zero _ zero_code) (k _ _ ((b.success zero_code).1))

  began-Untouched : (acts : List Act) (o : Option Begun) → Untouched w (began acts w.files o)
  began-Untouched acts none = tt
  began-Untouched acts (some b) = refl

  pub attach_new-Untouched :
      (before : List Act) → Untouched w (attach_new os_error sess w before w.files)
  unfolding attach_new
  attach_new-Untouched before = by_tty (require_tty sess)
    where
      by_tty :
          (o : Option (List Act))
          → Untouched w (elim o [
            | some acts ↦ finished 1 (before ++ acts) w.files
            | none ↦ began before w.files (attach_by os_error sess w.env false w.second)
          ])
      by_tty none = began-Untouched before (attach_by os_error sess w.env false w.second)
      by_tty (some acts) = refl

  unless_running-Untouched :
      (before : List Act) (rest : Option Ran)
      → Untouched w rest
      → Untouched w (unless_running os_error sess w before rest)
  unfolding unless_running
  unless_running-Untouched before rest h = by_prompt (prompt_attach_if_running sess w)
    where
      by_prompt :
          (p : Prompt)
          → Untouched w (elim p [
            | unasked ↦ rest
            | agreed acts ↦
                began (before ++ acts) w.files (attach_by os_error sess w.env false w.first)
            | declined acts ↦ finished 1 (before ++ acts) w.files
          ])
      by_prompt unasked = h
      by_prompt (agreed acts) =
          began-Untouched (before ++ acts) (attach_by os_error sess w.env false w.first)
      by_prompt (declined acts) = refl

-- The client's side.
cmd_new-begins :
    (os_error : ℕ → List ℕ) (sess : Session) (w : World) (name : List ℕ) (e pid : ℕ)
    → let c = prepared sess w name in
      connect_socket w.asked.0 w.asked.1 ≡ err e
      → w.no_tty ≡ false
      → w.kernel.fork ≡ ok pid
      → w.kernel.pipe ≡ true
      → w.made ≡ ok tt
      → lookup c.sockname w.files ≡ none
      → Allows w.kernel.bind
      → w.second.connect ≡ ok tt
      → inside w.env c.sockname ≡ false
      → Steady w.second.writes
      → 20 ≤ progress w.second.writes
      → Attached c w (cmd_new os_error sess w name)
unfolding cmd_new prepared unless_running
cmd_new-begins os_error sess w name e pid asked tty forked piped made free allows answers out s h =
    let c = prepared sess w name in
    rw (cmd_new, unless_running, unasked_lem c w e asked)
      (after_start-Attached os_error c w (path_said sess w name) (codes " created")
        (attach_new os_error c w) pid forked piped made free allows
        (λ acts files l. attach_new-Attached os_error c w acts files tty answers out s h l))

-- The bytes that the session is sent.
abbrev pub ran_sent : Option Ran → List ℕ
ran_sent none = []
ran_sent (some r) = r.sent

-- `new` for a session whose path is free, from a terminal outside the session, where the connection
-- of the prompt fails, the calls on the listener, `fork` and the pipe succeed, the child builds the
-- daemon, and the client can connect to it and its requests are taken, in pieces of any size: the
-- command comes to its event loop, a new socket is at the path, and the session was sent two packets.
-- However their bytes come in, a daemon in a state that satisfies the invariant takes the first for
-- a request to attach: it attaches the client at once, without a byte of the ring, if the client
-- showed the session's log or the ring is empty, and otherwise, if the writes come back, it has sent
-- the ring's contents, or a first part of them with the rest to follow. In whatever state it is
-- then, it takes the second for a request to redraw: it sets the client's window size, of which each
-- field is a u16, and redraws as the client's options say.
pub cmd_new-Attached :
    (os_error : ℕ → List ℕ) (sess : Session) (w : World) (name : List ℕ) (e pid size : ℕ)
    (b : Batch) (d d' : SessionDaemon) (i : ℕ) (k k' : Client) (incoming : List Read)
    → let c = prepared sess w name in
      connect_socket w.asked.0 w.asked.1 ≡ err e
      → w.no_tty ≡ false
      → w.kernel.fork ≡ ok pid
      → w.kernel.pipe ≡ true
      → w.made ≡ ok tt
      → lookup c.sockname w.files ≡ none
      → Allows w.kernel.bind
      → w.second.connect ≡ ok tt
      → inside w.env c.sockname ≡ false
      → Steady w.second.writes
      → 20 ≤ progress w.second.writes
      → IsU16 w.second.ws
      → Flows incoming
      → stream incoming ≡ ran_sent (cmd_new os_error sess w name)
      → IsValid size d
      → Attached c w (cmd_new os_error sess w name)
        × Served c w.second.ws w.second.log size b d d' i k k' incoming
cmd_new-Attached os_error sess w name e pid size b d d' i k k' incoming asked tty forked piped made
      free allows answers out s h u f comes v =
    let a =
      cmd_new-begins os_error sess w name e pid asked tty forked piped made free allows answers out
        s h in
    (
      a,
      requests-Served (prepared sess w name) w.second.ws w.second.log size b d d' i k k' incoming u
          f (comes ∙ ap ran_sent a.returns ∙ a.sent) v,
    )

after_start-Untouched :
    (os_error : ℕ → List ℕ) (sess : Session) (w : World) (before : List Act) (what : List ℕ)
    (next : List Act → Files → Option Ran)
    → probe sess.sockname w.files ≡ ok tt
    → Untouched w (after_start os_error sess w before what next)
unfolding after_start
after_start-Untouched os_error sess w before what next p =
    let r = session_daemon_main-refused os_error sess false w.kernel w.made w.run w.files p in
    rw (after_start, r.0) r.1

-- Where a session answers at the path that a name stands for, none of the commands that start a
-- session under the name changes a file, whatever the user answers to the prompt, and whatever the
-- kernel answers to the other calls.
pub commands-Untouched :
    (os_error : ℕ → List ℕ) (sess : Session) (w : World) (name : List ℕ)
    → probe (prepared sess w name).sockname w.files ≡ ok tt
    → Untouched w (cmd_new os_error sess w name)
      × Untouched w (cmd_start os_error sess w name)
      × Untouched w (cmd_run os_error sess w name)
unfolding cmd_new cmd_start cmd_run
commands-Untouched os_error sess w name p =
    let c = prepared sess w name in
    let before = path_said sess w name in
    let r = session_daemon_main-refused os_error c true w.kernel w.made w.run w.files p in
    (
      unless_running-Untouched os_error c w before _ (
          after_start-Untouched os_error c w before (codes " created") (attach_new os_error c w) p),
      unless_running-Untouched os_error c w before _
          (after_start-Untouched os_error c w before (codes " started") (finished 0) p),
      unless_running-Untouched os_error c w before _ r.1,
    )
