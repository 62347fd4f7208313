-- ===== src/Session/Input.antt =====
-- From a key to the terminal of the session: what a client reads from its terminal is what the daemon
-- writes to the terminal of the session.
use zatch.Common.{
  ℕ, ◌-◌, ◌≡◌, ◌≤◌, ◌<◌, List, [], ◌∷◌, ◌++◌, some, true, false, not, ◌&&◌, ok, min, length, take,
  replicate, ltb, lt→ltb, ◌==◌, if◌then◌else◌, refl, ap, ◌∙◌, arith, length-take, length-append,
  length-replicate, take-append,
}
use zatch.Os.{Read, Write}
use zatch.Wire.{as_u8, from_u8, read_from, write_to}
use zatch.Wire.Codec.{IsPacket}
use zatch.Wire.Receive.{stream, Flows}
use zatch.Wire.Transmit.{read_from-write_to}
use zatch.Wire.Winsize.{Winsize}
use zatch.Daemon.{Client, SessionDaemon, pty_write, Handled, handle_push}
use zatch.Daemon.Packets.{Batch, dispatch, serve}
use zatch.Session.{Session, send}
use zatch.Session.Loop.{Given, Flags, is_detach, push_packet, handle_stdin_data}

abbrev padding : List ℕ → List ℕ
padding typed = replicate (8 - length typed) 0

length-padding : (typed : List ℕ) → length (padding typed) ≡ 8 - length typed
length-padding typed = let byte : ℕ = 0 in length-replicate (8 - length typed) byte

pub push_packet-IsPacket : (typed : List ℕ) → length typed ≤ 8 → IsPacket (push_packet typed)
unfolding push_packet
push_packet-IsPacket typed le =
    omega (arith, length-append typed (padding typed), length-padding typed)

-- What `handle_push` makes of a packet that holds `typed`.
abbrev pub Pushed : SessionDaemon → List ℕ → Handled
Pushed d typed = record { keep = true; daemon = d; effects = pty_write typed ∷ [] }

handle_push-push_packet :
    (d : SessionDaemon) (typed : List ℕ)
    → length typed ≤ 8
    → 0 < length typed
    → handle_push d (push_packet typed) ≡ Pushed d typed
unfolding handle_push push_packet
handle_push-push_packet d typed le some_typed =
    let payload : List ℕ = typed ++ padding typed in
    let whole : min (length typed) (length payload) ≡ length typed =
      omega (arith, length-append typed (padding typed)) in
    let now : ℕ → Handled = λ n. record {
      keep = true;
      daemon = d;
      effects = if ltb 0 n then pty_write (take n payload) ∷ [] else [];
    } in
    let written : now (length typed) ≡ Pushed d typed =
      rw (lt→ltb 0 (length typed) some_typed, take-append typed (padding typed)) refl in
    ap now whole ∙ written

-- The daemon takes the packet for one to be typed.
pub serve-push_packet :
    (size : ℕ) (b : Batch) (d : SessionDaemon) (i : ℕ) (c : Client) (typed : List ℕ)
    → length typed ≤ 8
    → 0 < length typed
    → serve size b d i c (some (ok (push_packet typed))) ≡ some (Pushed d typed)
unfolding serve dispatch from_u8 as_u8 push_packet
serve-push_packet size b d i c typed le some_typed =
    ap some (handle_push-push_packet d typed le some_typed)

-- The first 8 bytes that a client reads from its terminal, if they do not start with the suspend or
-- the detach key, reach the terminal of the session as they were typed: the client sends one
-- packet; if it is sent, and comes in without an error, in any pieces, the daemon that serves it
-- makes one write of these bytes to the terminal, keeps the client, and changes nothing else.
pub typed_bytes_arrive :
    (sess : Session) (age : List ℕ) (vsusp : ℕ) (ws : Winsize) (x : ℕ) (xs : List ℕ) (flags : Flags)
    (answers : List Write) (incoming : List Read) (more : List ℕ) (size : ℕ) (b : Batch)
    (d : SessionDaemon) (i : ℕ) (c : Client)
    → not sess.no_suspend && x == vsusp ≡ false
    → is_detach sess.detach_char x ≡ false
    → let typed = take 8 (x ∷ xs) in
      (write_to (push_packet typed) answers).result ≡ some (ok tt)
      → Flows incoming
      → stream incoming ≡ (write_to (push_packet typed) answers).out ++ more
      → ((handle_stdin_data sess age vsusp ws (Given.bytes x xs) flags).acts
          ≡ send (push_packet typed) ∷ [])
        × (serve size b d i c (read_from incoming).result
            ≡ some (record { keep = true; daemon = d; effects = pty_write typed ∷ [] }))
unfolding handle_stdin_data
typed_bytes_arrive sess age vsusp ws x xs flags answers incoming more size b d i c s k sent flows
      received =
    let typed : List ℕ = take 8 (x ∷ xs) in
    let le : length typed ≤ 8 = omega (arith, length-take 8 (x ∷ xs)) in
    let there =
      read_from-write_to (push_packet typed) answers incoming more (push_packet-IsPacket typed le)
        sent flows received in
    let served : serve size b d i c (some (ok (push_packet typed))) ≡ some (Pushed d typed) =
      serve-push_packet size b d i c typed le (omega (arith, length-take 8 (x ∷ xs))) in
    (rw (s, k) refl, ap (serve size b d i c) there.0 ∙ served)
