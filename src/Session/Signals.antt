-- ===== src/Session/Signals.antt =====
-- The signal that `Session::kill` asks for, from the client to the daemon's call of `kill`.
use zatch.Common.{
  ℕ, ◌%◌, ◌≡◌, ◌≢◌, ◌<◌, List, [], ◌∷◌, ◌++◌, Option, none, some, true, false, ◌==◌, Result, ok,
  err, refl, ap, ◌∙◌, arith,
}
use zatch.Os.{Read, Write}
use zatch.Wire.{ProtocolError, Sent, encode, as_u8, from_u8, kill as kill_type, read_from, write_to}
use zatch.Wire.Codec.{IsPacket}
use zatch.Wire.Receive.{stream, Flows}
use zatch.Wire.Transmit.{read_from-write_to}
use zatch.Daemon.{Client, SessionDaemon, signal, handle_kill}
use zatch.Daemon.Packets.{Batch, dispatch, serve}
use zatch.Session.Kill.{Attempt, send_kill, connect_socket, to_errno, after_connect}

after_connect-sent :
    (connected : Result (Unit {0}) ℕ) (writes : List Write)
    (w : Sent (Result (Unit {0}) ProtocolError))
    → (after_connect connected writes w).result ≡ some (ok tt)
    → (w.result ≡ some (ok tt)) × ((after_connect connected writes w).out ≡ w.out)
unfolding after_connect
after_connect-sent (err e) writes w h = absurd (cc)
after_connect-sent (ok u) writes w h = (all_sent w.result h, refl)
  where
    all_sent :
        (r : Option (Result (Unit {0}) ProtocolError))
        → (elim r [ none ↦ none | some x ↦ some (to_errno x) ]) ≡ some (ok tt)
        → r ≡ some (ok tt)
    all_sent none q = absurd (cc)
    all_sent (some (ok u)) q = refl
    all_sent (some (err e)) q = absurd (cc)

encode-IsPacket : (n : ℕ) → IsPacket (encode kill_type n)
unfolding encode
encode-IsPacket n = refl

serve-kill :
    (size : ℕ) (b : Batch) (d : SessionDaemon) (i : ℕ) (c : Client) (sig : ℕ)
    → sig ≢ 0
    → serve size b d i c (some (ok (encode kill_type sig)))
      ≡ some (record { keep = true; daemon = d; effects = signal d.pty.pid sig ∷ [] })
unfolding serve dispatch from_u8 as_u8 encode handle_kill
serve-kill size b d i c sig some_sig =
    let given : (sig == 0) ≡ false = ground arith in rw given refl

-- A signal from 1 to 255 that `send_kill` has sent is sent to the process group of the session's
-- child, once the packet has come in without an error and the daemon serves it; the daemon does
-- nothing else.
pub send_kill-signals :
    (t : Attempt) (sig : ℕ) (incoming : List Read) (more : List ℕ) (size : ℕ) (b : Batch)
    (d : SessionDaemon) (i : ℕ) (c : Client)
    → sig ≢ 0
    → sig < 256
    → (send_kill t sig).result ≡ some (ok tt)
    → Flows incoming
    → stream incoming ≡ (send_kill t sig).out ++ more
    → serve size b d i c (read_from incoming).result
      ≡ some (record { keep = true; daemon = d; effects = signal d.pty.pid sig ∷ [] })
unfolding send_kill
send_kill-signals t sig incoming more size b d i c some_sig small sent flows received =
    let p = encode kill_type (sig % 256) in
    let (written, out) =
      after_connect-sent (connect_socket t.connect t.mode) t.writes (write_to p t.writes) sent in
    let there =
      read_from-write_to p t.writes incoming more (encode-IsPacket (sig % 256)) written flows
        (received ∙ ap (λ o. o ++ more) out) in
    let same : sig % 256 ≡ sig = omega arith in
    ap (serve size b d i c) there.0 ∙ rw same (serve-kill size b d i c sig some_sig)
