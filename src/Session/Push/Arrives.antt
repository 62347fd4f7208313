-- ===== src/Session/Push/Arrives.antt =====
-- What is piped into a session reaches its terminal.
use zatch.Common.{
  ℕ, zero, suc, ◌≡◌, ◌≤◌, List, [], ◌∷◌, ◌++◌, Option, none, some, true, false, get_elem?, Result,
  ok, length, take, refl, ap, ◌∙◌, arith, length-take, append-nil,
}
use zatch.Os.{Read, Write, progress}
use zatch.Wire.{to_bytes, read_from, write_to, ProtocolError}
use zatch.Wire.Codec.{length-to_bytes}
use zatch.Wire.Receive.{stream, Flows}
use zatch.Wire.Transmit.{write_to-all, first_packet}
use zatch.Wire.Returns.{Steady, write_to-ok}
use zatch.Daemon.{Client, SessionDaemon, Effect, pty_write}
use zatch.Daemon.Packets.{Batch, serve}
use zatch.Session.{Session}
use zatch.Session.Input.{push_packet-IsPacket, serve-push_packet}
use zatch.Session.Loop.{push_packet}
use zatch.Session.Push.{Stdin, got, closed, failed, PushRound, Piped, push_wrote, push_loop, push}
use zatch.Session.Kill.{connect_socket}

-- Standard input comes to its end, and the session takes each packet.
abbrev pub Feeds : List PushRound → Type 0
Feeds [] = ⊥
Feeds (r ∷ rounds) = elim r.read [
  | closed ↦ Unit {0}
  | failed e ↦ ⊥
  | got x xs ↦ Steady r.writes × (10 ≤ progress r.writes) × Feeds rounds
]

-- What the reads of standard input took, up to its end.
abbrev pub piped : List PushRound → List ℕ
piped [] = []
piped (r ∷ rounds) =
    let later = piped rounds in
    elim r.read [ closed ↦ [] | failed e ↦ [] | got x xs ↦ take 8 (x ∷ xs) ++ later ]

-- The number of packets.
abbrev pub packets : List PushRound → ℕ
packets [] = 0
packets (r ∷ rounds) =
    let later = packets rounds in elim r.read [ closed ↦ 0 | failed e ↦ 0 | got x xs ↦ suc later ]

-- The bytes that the calls write to the session's terminal.
abbrev pub typed : List Effect → List ℕ
typed [] = []
typed (pty_write bs ∷ es) = bs ++ typed es
typed (_ ∷ es) = typed es

-- What the daemon types while it serves the next packets of its client `i`, `n` at most, one in each
-- of its batches, for as long as it keeps the client.
abbrev pub forwarded : ℕ → Batch → ℕ → SessionDaemon → ℕ → List Read → List ℕ
forwarded size b i d zero incoming = []
forwarded size b i d (suc n) incoming =
    let r = read_from incoming in
    elim (get_elem? d.clients i) [
      | none ↦ []
      | some c ↦ elim (serve size b d i c r.result) [
        | none ↦ []
        | some h ↦
            typed h.effects
            ++ elim h.keep [ true ↦ forwarded size b i h.daemon n r.left | false ↦ [] ]
      ]
    ]

-- The command comes back with success, and however what it sent comes in, the daemon writes all
-- that was piped to the terminal.
abbrev pub Arrives : ℕ → Batch → ℕ → SessionDaemon → List PushRound → Option Piped → Type 0
Arrives size b i d rounds o =
    (r : Piped) × (o ≡ some r)
    × (r.code ≡ 0)
    × ((incoming : List Read)
        → Flows incoming
        → stream incoming ≡ r.sent
        → forwarded size b i d (packets rounds) incoming ≡ piped rounds)

module _ (os_error : ℕ → List ℕ) (stale : List ℕ) (sess : Session) (size : ℕ) (b : Batch) (i : ℕ)
    (d : SessionDaemon) (c : Client) (there : get_elem? d.clients i ≡ some c) where
  -- One packet is sent, and then the others.
  sent_first :
      (bytes : List ℕ) (rounds : List PushRound) (result : Option (Result (Unit {0}) ProtocolError))
      (out : List ℕ) (rest : Option Piped)
      → length bytes ≤ 8
      → 1 ≤ length bytes
      → result ≡ some (ok tt)
      → out ≡ to_bytes (push_packet bytes)
      → Arrives size b i d rounds rest
      → (r : Piped) × (push_wrote os_error stale sess result out rest ≡ some r)
        × (r.code ≡ 0)
        × ((incoming : List Read)
            → Flows incoming
            → stream incoming ≡ r.sent
            → forwarded size b i d (suc (packets rounds)) incoming ≡ bytes ++ piped rounds)
  unfolding push_wrote
  sent_first bytes rounds result out rest le some_bytes e o (r, q, code, later) =
      rw (e, q)
        (
          record r { sent = out ++ r.sent },
          refl,
          code,
          λ incoming flows s.
              let came =
                first_packet (push_packet bytes) incoming r.sent
                  (length-to_bytes (push_packet bytes) (push_packet-IsPacket bytes le)) flows
                  (s ∙ ap (λ bs. bs ++ r.sent) o) in
              let rest_comes = later (read_from incoming).left came.2 came.1 in
              rw
                (
                  forwarded,
                  there,
                  came.0,
                  serve-push_packet size b d i c bytes le (omega (arith, some_bytes)),
                  rest_comes,
                )
                (ap (λ bs. bs ++ piped rounds) (append-nil bytes)),
        )

  loop-Arrives :
      (rounds : List PushRound)
      → Feeds rounds
      → Arrives size b i d rounds (push_loop os_error stale sess rounds)
  unfolding push_loop
  loop-Arrives [] f = elim f [ ]
  loop-Arrives (r ∷ rounds) f = by_read r.read r.writes f (loop-Arrives rounds)
    where
      by_read :
          (g : Stdin) (writes : List Write)
          → Feeds (record { read = g; writes = writes } ∷ rounds)
          → (Feeds rounds → Arrives size b i d rounds (push_loop os_error stale sess rounds))
          → Arrives size b i d
              (record { read = g; writes = writes } ∷ rounds)
              (push_loop os_error stale sess (record { read = g; writes = writes } ∷ rounds))
      by_read closed writes f later =
          (record { code = 0; acts = []; sent = [] }, refl, refl, λ incoming flows s. refl)
      by_read (failed e) writes f later = elim f [ ]
      by_read (got x xs) writes f later =
          let bytes : List ℕ = take 8 (x ∷ xs) in
          let w = write_to (push_packet bytes) writes in
          let le : length bytes ≤ 8 = omega (arith, length-take 8 (x ∷ xs)) in
          let sent = write_to-ok (push_packet bytes) writes f.0 f.1 in
          sent_first bytes rounds w.result w.out (push_loop os_error stale sess rounds) le
            (omega (arith, length-take 8 (x ∷ xs))) sent
            (write_to-all (push_packet bytes) writes (push_packet-IsPacket bytes le) sent)
            (later f.2)

-- Text piped into a session arrives: if the connection succeeds, standard input comes to its end
-- without an error, and the session takes each packet, in pieces of any size, then `push` comes back
-- with exit code 0, and a daemon that has the client in its list, and serves its packets one after
-- another as their bytes come in, in any pieces, writes exactly the bytes that were read to the
-- session's terminal, in order.
pub push-Arrives :
    (os_error : ℕ → List ℕ) (stale : List ℕ) (sess : Session) (size : ℕ) (b : Batch) (i : ℕ)
    (d : SessionDaemon) (c : Client) (mode : Option ℕ) (rounds : List PushRound)
    → get_elem? d.clients i ≡ some c
    → Feeds rounds
    → Arrives size b i d rounds (push os_error stale sess (ok tt) mode rounds)
unfolding push connect_socket
push-Arrives os_error stale sess size b i d c mode rounds there f =
    loop-Arrives os_error stale sess size b i d c there rounds f
