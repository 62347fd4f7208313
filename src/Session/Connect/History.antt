-- ===== src/Session/Connect/History.antt =====
-- A client that attaches sees what the session has said: from the log, or else from the ring.
use zatch.Common.{
  ℕ, ◌≡◌, ◌≢◌, ◌≤◌, List, [], ◌∷◌, ◌++◌, ◌==◌, if◌then◌else◌, sym, Option, none, some, Bool, true,
  false, Result, ok, err, refl, ap, ◌∙◌, arith, append-nil, codes,
}
use zatch.Os.{Read, Write, progress}
use zatch.Wire.{to_bytes, write_to, read_from, ProtocolError, from_u8, as_u8, new}
use zatch.Wire.Methods.{RedrawMethod, redraw_as_u8}
use zatch.Wire.Codec.{IsPacket, length-to_bytes}
use zatch.Wire.Receive.{stream, Flows}
use zatch.Wire.Returns.{Steady, write_to-ok, write_to-left}
use zatch.Wire.Transmit.{write_to-all, first_packet}
use zatch.Wire.Winsize.{Winsize, IsU16, winsize_round_trip}
use zatch.Daemon.{
  Client, Pty, SessionDaemon, Handled, Effect, pty_write, signal, set_winsize, Termios, is_raw,
  handle_attach, handle_redraw, set_client,
}
use zatch.Daemon.Packets.{Batch, dispatch, serve}
use zatch.Daemon.Inv.{IsValid}
use zatch.Daemon.Attach.{Attaches, handle_attach-Attaches}
use zatch.Daemon.Packets.Serve.{Ensures}
use zatch.Session.{Session, Act}
use zatch.Session.Kill.{connect_socket}
use zatch.Session.Nesting.{inside}
use zatch.Session.Connect.{
  LogRead, replay_log, try_connect, attach_packet, redraw_packet, Begun, requested, begin,
  acts_before, attach_start,
}

abbrev pub has : Option (List LogRead) → Bool
has none = false
has (some reads) = true

-- What one client does to the daemon's state, without a byte from the ring.
abbrev pub live_at_once : SessionDaemon → ℕ → Client → Handled
live_at_once d i c = record {
  keep = true;
  daemon = set_client d i (record c { attached = true });
  effects = [];
}

-- How the daemon serves the first request: a client that was shown the log is live at once and gets
-- nothing of the ring; another is sent the ring's contents, or is live at once if there are none.
abbrev pub Serves : Option (List LogRead) → ℕ → SessionDaemon → ℕ → Client → Option Handled → Type 0
Serves (some reads) size d i c h = h ≡ some (live_at_once d i c)
Serves none size d i c h =
    (d.scrollback.len ≡ 0 → h ≡ some (live_at_once d i c))
    × (d.scrollback.len ≢ 0 → Ensures (Attaches size d i c) h)

-- What a method of redrawing makes the daemon do: nothing, type ^L if the terminal is raw, or send
-- SIGWINCH (28) to the child.
abbrev pub redrawn : RedrawMethod → Pty → Option Termios → List Effect
redrawn RedrawMethod.unspec pty term = []
redrawn RedrawMethod.none pty term = []
redrawn RedrawMethod.ctrl_l pty term = if is_raw term then pty_write (0x0c ∷ []) ∷ [] else []
redrawn RedrawMethod.winch pty term = signal pty.pid 28 ∷ []

-- How the daemon serves the second request: the terminal gets the client's window size, and is redrawn.
abbrev pub Redraws : Session → Winsize → Batch → SessionDaemon → Option Handled → Type 0
Redraws sess ws b d h =
    h
    ≡ some (record {
      keep = true;
      daemon = d;
      effects = set_winsize ws ∷ redrawn sess.redraw_method d.pty b.termios;
    })

-- How daemons in two states serve the first two packets of a client.
pub record Served (sess : Session) (ws : Winsize) (log : Option (List LogRead)) (size : ℕ)
    (b : Batch) (d d' : SessionDaemon) (i : ℕ) (c c' : Client) (incoming : List Read) : Type 0 where
  pub attaches : Serves log size d i c (serve size b d i c (read_from incoming).result)
  pub redraws :
      Redraws sess ws b d' (serve size b d' i c' (read_from (read_from incoming).left).result)

-- The bytes that the session is sent.
abbrev pub sent_of : Option Begun → List ℕ
sent_of none = []
sent_of (some b) = b.sent

pub record Starts (sess : Session) (ws : Winsize) (log : Option (List LogRead)) (o : Option Begun)
    : Type 0 where
  pub begun : Begun
  pub returns : o ≡ some begun
  pub goes_on : begun.code ≡ none
  pub sent : begun.sent ≡ to_bytes (attach_packet (has log)) ++ to_bytes (redraw_packet sess ws)

attach_packet-IsPacket : (b : Bool) → IsPacket (attach_packet b)
unfolding attach_packet
attach_packet-IsPacket b = refl

redraw_packet-IsPacket : (sess : Session) (ws : Winsize) → IsPacket (redraw_packet sess ws)
unfolding redraw_packet
redraw_packet-IsPacket sess ws = refl

-- A request that was sent.
requested-ok :
    (sess : Session) (what : List ℕ) (r : Option (Result (Unit {0}) ProtocolError)) (out : List ℕ)
    (b : Begun)
    → r ≡ some (ok tt)
    → requested sess what r out (some b) ≡ some (record b { sent = out ++ b.sent })
unfolding requested
requested-ok sess what none out b e = cc
requested-ok sess what (some (err x)) out b e = cc
requested-ok sess what (some (ok u)) out b e = refl

begin-Starts :
    (sess : Session) (ws : Winsize) (log : Option (List LogRead)) (writes : List Write)
    → Steady writes
    → 20 ≤ progress writes
    → Starts sess ws log (begin sess ws (has log) writes)
unfolding begin
begin-Starts sess ws log writes s h =
    let p = attach_packet (has log) in
    let q = redraw_packet sess ws in
    let first = write_to p writes in
    let left = write_to-left p writes s in
    let sent = write_to-ok p writes s (omega arith) in
    let sent' = write_to-ok q first.left left.0 (omega (arith, left.1)) in
    let second = write_to q first.left in
    let out : first.out ≡ to_bytes p =
      write_to-all p writes (attach_packet-IsPacket (has log)) sent in
    let out' : second.out ≡ to_bytes q =
      write_to-all q first.left (redraw_packet-IsPacket sess ws) sent' in
    let last : Begun = record { code = none; acts = []; sent = [] } in
    let inner = requested-ok sess (codes "redraw") second.result second.out last sent' in
    record {
      begun = record { code = none; acts = []; sent = first.out ++ (second.out ++ []) };
      returns =
          ap (requested sess (codes "attach") first.result first.out) inner
          ∙ requested-ok sess (codes "attach") first.result first.out _ sent;
      goes_on = refl;
      sent = rw (out, out', append-nil (to_bytes q)) refl;
    }

-- The actions before do not change what is sent.
before-Starts :
    (sess : Session) (ws : Winsize) (log : Option (List LogRead)) (acts : List Act)
    (o : Option Begun)
    → Starts sess ws log o
    → Starts sess ws log (acts_before acts o)
before-Starts sess ws log acts none s = let r = s.returns in cc
before-Starts sess ws log acts (some b) s =
    let r = s.returns in
    let b_is : b ≡ s.begun = cc in
    record {
      begun = record b { acts = acts ++ b.acts };
      returns = refl;
      goes_on = rw b_is s.goes_on;
      sent = rw b_is s.sent;
    }

replay_log-has :
    (os_error : ℕ → List ℕ) (sess : Session) (log : Option (List LogRead))
    → (replay_log os_error sess log 0).result ≡ has log
unfolding replay_log
replay_log-has os_error sess none = refl
replay_log-has os_error sess (some reads) = refl

serves :
    (log : Option (List LogRead)) (size : ℕ) (b : Batch) (d : SessionDaemon) (i : ℕ) (c : Client)
    → IsValid size d
    → Serves log size d i c (serve size b d i c (some (ok (attach_packet (has log)))))
unfolding serve dispatch from_u8 as_u8 new handle_attach attach_packet
serves (some reads) size b d i c v = refl
serves none size b d i c v = (
  λ z. let empty : (d.scrollback.len == 0) ≡ true = ground arith in rw empty refl,
  λ h. handle_attach-Attaches size d i c (attach_packet false) v refl h (b.writes c.fd),
)

serve-redraw_packet :
    (sess : Session) (ws : Winsize) (size : ℕ) (b : Batch) (d : SessionDaemon) (i : ℕ) (c : Client)
    → IsU16 ws
    → Redraws sess ws b d (serve size b d i c (some (ok (redraw_packet sess ws))))
unfolding serve dispatch from_u8 as_u8 handle_redraw redraw_packet redraw_as_u8
serve-redraw_packet sess ws size b d i c u =
    rw (winsize_round_trip ws u).0 (by_method sess.redraw_method)
  where
    by_method :
        (m : RedrawMethod)
        → ◌≡◌ {A = Option Handled}
            (some (record {
              keep = true;
              daemon = d;
              effects =
                  set_winsize ws
                  ∷ (if redraw_as_u8 m == redraw_as_u8 RedrawMethod.ctrl_l
                      then (if is_raw b.termios then pty_write (0x0c ∷ []) ∷ [] else [])
                      else if redraw_as_u8 m == redraw_as_u8 RedrawMethod.winch
                      then signal d.pty.pid 28 ∷ []
                      else []);
            }))
            (some (record {
              keep = true;
              daemon = d;
              effects = set_winsize ws ∷ redrawn m d.pty b.termios;
            }))
    by_method RedrawMethod.unspec = refl
    by_method RedrawMethod.none = refl
    by_method RedrawMethod.ctrl_l = refl
    by_method RedrawMethod.winch = refl

-- Two requests that come in.
pub requests-Served :
    (sess : Session) (ws : Winsize) (log : Option (List LogRead)) (size : ℕ) (b : Batch)
    (d d' : SessionDaemon) (i : ℕ) (c c' : Client) (incoming : List Read)
    → IsU16 ws
    → Flows incoming
    → stream incoming ≡ to_bytes (attach_packet (has log)) ++ to_bytes (redraw_packet sess ws)
    → IsValid size d
    → Served sess ws log size b d d' i c c' incoming
requests-Served sess ws log size b d d' i c c' incoming u f s v =
    let p = attach_packet (has log) in
    let q = redraw_packet sess ws in
    let one =
      first_packet p incoming (to_bytes q) (length-to_bytes p (attach_packet-IsPacket (has log))) f
        s in
    let two =
      first_packet q (read_from incoming).left []
        (length-to_bytes q (redraw_packet-IsPacket sess ws)) one.2
        (one.1 ∙ sym (append-nil (to_bytes q))) in
    record {
      attaches = rw one.0 (serves log size b d i c v);
      redraws = rw two.0 (serve-redraw_packet sess ws size b d' i c' u);
    }

try_connect-ok :
    (os_error : ℕ → List ℕ) (sess : Session) (env : Option (List ℕ)) (noerror : Bool)
    (mode : Option ℕ) (log : Option (List LogRead))
    → inside env sess.sockname ≡ false
    → (try_connect os_error sess env noerror (ok tt) mode log).result ≡ ok (has log)
unfolding try_connect connect_socket
try_connect-ok os_error sess env noerror mode log out =
    rw (try_connect, out) (ap ok (replay_log-has os_error sess log))

-- The client's side.
pub attach_start-begun :
    (os_error : ℕ → List ℕ) (sess : Session) (env : Option (List ℕ)) (noerror : Bool)
    (mode : Option ℕ) (log : Option (List LogRead)) (ws : Winsize) (writes : List Write)
    → inside env sess.sockname ≡ false
    → Steady writes
    → 20 ≤ progress writes
    → Starts sess ws log (attach_start os_error sess env noerror (ok tt) mode log ws writes)
unfolding attach_start
attach_start-begun os_error sess env noerror mode log ws writes out s h =
    rw (attach_start, try_connect-ok os_error sess env noerror mode log out)
      (before-Starts sess ws log _ (begin sess ws (has log) writes)
        (begin-Starts sess ws log writes s h))

-- What an attachment that starts has sent.
sent_of-Starts :
    (sess : Session) (ws : Winsize) (log : Option (List LogRead)) (o : Option Begun)
    → Starts sess ws log o
    → sent_of o ≡ to_bytes (attach_packet (has log)) ++ to_bytes (redraw_packet sess ws)
sent_of-Starts sess ws log o s = ap sent_of s.returns ∙ s.sent

-- A client that is not inside the session, and can connect, and whose requests the session takes, in
-- pieces of any size, comes to its event loop, and has sent two packets. However their bytes come in,
-- a daemon in a state that satisfies the invariant takes the first for a request to attach: it
-- attaches the client at once, without a byte of the ring, if the client showed the session's log or
-- the ring is empty, and otherwise, if the writes come back, it has sent the ring's contents, or a
-- first part of them with the rest to follow. The daemon, in whatever state it is then, takes the
-- second for a request to redraw: it sets the client's window size, of which each field is a u16,
-- and redraws as the client's options say.
pub attach_start-Starts :
    (os_error : ℕ → List ℕ) (sess : Session) (env : Option (List ℕ)) (noerror : Bool)
    (mode : Option ℕ) (log : Option (List LogRead)) (ws : Winsize) (writes : List Write) (size : ℕ)
    (b : Batch) (d d' : SessionDaemon) (i : ℕ) (c c' : Client) (incoming : List Read)
    → inside env sess.sockname ≡ false
    → Steady writes
    → 20 ≤ progress writes
    → IsU16 ws
    → Flows incoming
    → stream incoming ≡ sent_of (attach_start os_error sess env noerror (ok tt) mode log ws writes)
    → IsValid size d
    → Starts sess ws log (attach_start os_error sess env noerror (ok tt) mode log ws writes)
      × Served sess ws log size b d d' i c c' incoming
attach_start-Starts os_error sess env noerror mode log ws writes size b d d' i c c' incoming out s h
      u f comes v =
    let started = attach_start-begun os_error sess env noerror mode log ws writes out s h in
    (
      started,
      requests-Served sess ws log size b d d' i c c' incoming u f
          (comes ∙ sent_of-Starts sess ws log _ started) v,
    )
