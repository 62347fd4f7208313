-- ===== src/Daemon/Packets/Answers.antt =====
-- A batch of `handle_client_packets` comes back when the kernel answers its calls often enough.
use zatch.Common.{
  ℕ, zero, suc, ◌+◌, ◌*◌, ◌≤◌, ◌≡◌, ◌≢◌, List, [], ◌∷◌, ◌++◌, Option, none, some, true, false,
  length, get_elem?, codes, decimal, length-append, length-decimal, refl, arith, Bool-cases,
  Option-cases, inl, inr, not, ◌||◌, ◌==◌, Result, ok, err,
}
use zatch.Os.{Write, progress}
use zatch.Wire.{
  MsgType, push, attach, detach, winch, redraw, kill, force_detach, info, Packet, from_u8,
  ProtocolError, eof, would_block, io, read_from, write_buf,
}
use zatch.Wire.Returns.{replies, read_from-returns, write_buf-returns}
use zatch.Daemon.{
  Client, SessionDaemon, Effect, Handled, handle_attach, handle_info, write_lines, pid_lines,
  info_lines, attached_clients, wrote, received, close,
}
use zatch.Daemon.Attach.{handle_attach-returns}
use zatch.Daemon.Inv.{IsValid}
use zatch.Daemon.Packets.{
  Batch, dispatch, serve, Outcome, after_calls, drop_client, packets_loop, handle_client_packets,
}
use zatch.Daemon.Packets.Serve.{Ensures, Kept, serve-Kept}
use zatch.Daemon.Packets.Once.{
  Served, Ends, kept-IsValid, same_length, drop_client-IsValid, handle_client_packets-Served,
}
use zatch.Daemon.Clients.{get_elem?-lt, length-swap_remove}

-- The bytes of a list of lines.
abbrev pub total : List (List ℕ) → ℕ
total [] = 0
total (line ∷ lines) = length line + total lines

write_lines-returns :
    (fd : ℕ) (lines : List (List ℕ)) (writes : List Write)
    → total lines ≤ progress writes
    → write_lines fd lines writes ≢ none
unfolding write_lines
write_lines-returns fd [] writes h = λ q. cc
write_lines-returns fd (line ∷ lines) writes h =
    let s = write_buf line writes in
    let r = write_buf-returns line writes (omega arith) in
    both s.result (write_lines fd lines s.left) r.0
      (write_lines-returns fd lines s.left (omega (arith, r.1)))
  where
    both :
        (r : Option (Unit {0})) (later : Option (List Effect))
        → r ≢ none
        → later ≢ none
        → (elim r [
          | none ↦ none
          | some _ ↦ elim later [
            | none ↦ none
            | some es ↦ some (wrote fd (write_buf line writes).out ∷ es)
          ]
        ])
          ≢ none
    both none later n k q = n refl
    both (some u) none n k q = k refl
    both (some u) (some es) n k q = cc

total-pid_lines : (cs : List Client) → total (pid_lines cs) ≤ 26 * length cs
unfolding pid_lines
total-pid_lines [] = omega arith
total-pid_lines (c ∷ cs) = omega (
  arith,
  total-pid_lines cs,
  length-decimal c.peer_pid,
  length-append (decimal c.peer_pid) (codes "\n"),
)

length-attached : (cs : List Client) → length (attached_clients cs) ≤ length cs
length-attached [] = omega arith
length-attached (c ∷ cs) = ground (arith, length-attached cs)

-- What `handle_info` writes is bounded by the number of clients.
pub total-info_lines : (cs : List Client) → total (info_lines cs) ≤ 31 + 26 * length cs
unfolding info_lines
total-info_lines cs = omega (
  arith,
  total-pid_lines (attached_clients cs),
  length-attached cs,
  length-decimal (length (attached_clients cs)),
  length-append (decimal (length (attached_clients cs))) (codes "\n"),
)

handle_info-returns :
    (d : SessionDaemon) (fd : ℕ) (writes : List Write)
    → 31 + 26 * length d.clients ≤ progress writes
    → handle_info d fd writes ≢ none
unfolding handle_info
handle_info-returns d fd writes h = told (write_lines fd (info_lines d.clients) writes) (
    write_lines-returns fd (info_lines d.clients) writes
      (omega (arith, total-info_lines d.clients)))
  where
    told :
        (r : Option (List Effect))
        → r ≢ none
        → ◌≢◌ {A = Option Handled}
            (elim r [
              | none ↦ none
              | some es ↦ some (record { keep = false; daemon = d; effects = es })
            ])
            none
    told none n q = n refl
    told (some es) n q = cc

handle_attach_any-returns :
    (size : ℕ) (d : SessionDaemon) (i : ℕ) (c : Client) (pkt : Packet) (writes : List Write)
    → IsValid size d
    → size ≤ progress writes
    → handle_attach size d i c pkt writes ≢ none
unfolding handle_attach
handle_attach_any-returns size d i c pkt writes v h =
    elim (Bool-cases (not (pkt.len == 0) || d.scrollback.len == 0)) [
      | inl e ↦ rw e (λ q. cc)
      | inr e ↦
          handle_attach-returns size d i c pkt v (ground arith) (ground arith) writes
            (omega (arith, v.ring.len_in))
    ]

-- The answers that are enough for each client that `select` reported readable, where there are at
-- most `n` clients.
pub record Answered (size n : ℕ) (b : Batch) : Type 0 where
  pub read : (fd : ℕ) → b.readable fd ≡ true → 10 ≤ replies (b.reads fd)
  pub wrote : (fd : ℕ) → b.readable fd ≡ true → size + (31 + 26 * n) ≤ progress (b.writes fd)

module _ (size n : ℕ) (b : Batch) (a : Answered size n b) where
  dispatch-returns :
      (d : SessionDaemon) (i : ℕ) (c : Client) (pkt : Packet) (t : Option MsgType)
      → IsValid size d
      → length d.clients ≤ n
      → b.readable c.fd ≡ true
      → dispatch size b d i c pkt t ≢ none
  unfolding dispatch
  dispatch-returns d i c pkt (some attach) v le q =
      handle_attach_any-returns size d i c pkt (b.writes c.fd) v (omega (arith, a.wrote c.fd q))
  dispatch-returns d i c pkt (some info) v le q =
      handle_info-returns d c.fd (b.writes c.fd) (omega (arith, a.wrote c.fd q))
  dispatch-returns d i c pkt (some push) v le q = λ z. cc
  dispatch-returns d i c pkt (some detach) v le q = λ z. cc
  dispatch-returns d i c pkt (some winch) v le q = λ z. cc
  dispatch-returns d i c pkt (some redraw) v le q = λ z. cc
  dispatch-returns d i c pkt (some kill) v le q = λ z. cc
  dispatch-returns d i c pkt (some force_detach) v le q = λ z. cc
  dispatch-returns d i c pkt none v le q = λ z. cc

  serve-returns :
      (d : SessionDaemon) (i : ℕ) (c : Client) (r : Option (Result Packet ProtocolError))
      → IsValid size d
      → length d.clients ≤ n
      → b.readable c.fd ≡ true
      → r ≢ none
      → serve size b d i c r ≢ none
  unfolding serve
  serve-returns d i c none v le q h = λ z. h refl
  serve-returns d i c (some (ok pkt)) v le q h =
      dispatch-returns d i c pkt (from_u8 pkt.msg_type) v le q
  serve-returns d i c (some (err eof)) v le q h = λ z. cc
  serve-returns d i c (some (err would_block)) v le q h = λ z. cc
  serve-returns d i c (some (err (io e))) v le q h = λ z. cc

  after_calls-returns : (es : List Effect) (o : Outcome) → o ≢ none → after_calls es o ≢ none
  after_calls-returns es none h = λ z. h refl
  after_calls-returns es (some (d, later)) h = λ z. cc

  loop-returns :
      (fuel i : ℕ) (d : SessionDaemon)
      → IsValid size d
      → length d.clients ≤ n
      → packets_loop size b fuel i d ≢ none
  unfolding packets_loop
  loop-returns zero i d v le = λ z. cc
  loop-returns (suc fuel) i d v le = elim (Option-cases (get_elem? d.clients i)) [
    | inl e ↦ rw (e, packets_loop) (λ z. cc)
    | inr (c, e) ↦ elim (Bool-cases (b.readable c.fd)) [
      | inr q ↦ rw (e, packets_loop, q) (loop-returns fuel (i + 1) d v le)
      | inl q ↦
          rw (e, packets_loop, q)
            (round c (serve size b d i c (read_from (b.reads c.fd)).result)
              (serve-returns d i c (read_from (b.reads c.fd)).result v le q
                (read_from-returns (b.reads c.fd) (a.read c.fd q)))
              (serve-Kept size b d i c e v (read_from (b.reads c.fd)).result)
              (λ h k.
                loop-returns fuel (i + 1) h.daemon (kept-IsValid size v k)
                  (omega (arith, le, same_length size d h k)))
              (λ h k.
                loop-returns fuel i (drop_client h.daemon i)
                  (drop_client-IsValid size i (kept-IsValid size v k))
                  (omega (
                    arith,
                    le,
                    same_length size d h k,
                    get_elem?-lt d.clients i c e,
                    length-swap_remove h.daemon.clients i,
                  ))))
    ]
  ]
    where
      round :
          (c : Client) (s : Option Handled)
          → s ≢ none
          → Ensures (Kept size d) s
          → ((h : Handled) → Kept size d h → packets_loop size b fuel (i + 1) h.daemon ≢ none)
          → ((h : Handled)
              → Kept size d h
              → packets_loop size b fuel i (drop_client h.daemon i) ≢ none)
          → ◌≢◌ {A = Outcome}
              (elim s [
                | none ↦ none
                | some h ↦ elim h.keep [
                  | true ↦
                      after_calls
                        (received c.fd ∷ h.effects)
                        (packets_loop size b fuel (i + 1) h.daemon)
                  | false ↦
                      after_calls
                        (received c.fd ∷ (h.effects ++ close c.fd ∷ []))
                        (packets_loop size b fuel i (drop_client h.daemon i))
                ]
              ])
              none
      round c none s k f g = λ z. s refl
      round c (some h) s k f g = elim (Bool-cases h.keep) [
        | inl t ↦ rw t (
            after_calls-returns (received c.fd ∷ h.effects)
              (packets_loop size b fuel (i + 1) h.daemon) (f h k))
        | inr t ↦ rw t (
            after_calls-returns (received c.fd ∷ (h.effects ++ close c.fd ∷ []))
              (packets_loop size b fuel i (drop_client h.daemon i)) (g h k))
      ]

-- A batch that starts in a state that satisfies the invariant comes back, and has then served each
-- readable client once, if the kernel tells each read of a readable client's descriptor ten times
-- something other than EINTR, and lets bytes through to it as often as a ring and a report on all
-- clients have bytes.
pub handle_client_packets-returns :
    (size : ℕ) (b : Batch) (d : SessionDaemon)
    → IsValid size d
    → Answered size (length d.clients) b
    → (d' : SessionDaemon) × (es : List Effect) × (handle_client_packets size b d ≡ some (d', es))
      × Served size b 0 d d' es
unfolding handle_client_packets
handle_client_packets-returns size b d v a =
    came_back (handle_client_packets size b d)
      (loop-returns size (length d.clients) b a (length d.clients) 0 d v (omega arith))
      (handle_client_packets-Served size b d v)
  where
    came_back :
        (o : Outcome)
        → o ≢ none
        → Ends (Served size b 0 d) o
        → (d' : SessionDaemon) × (es : List Effect) × (o ≡ some (d', es)) × Served size b 0 d d' es
    came_back none h s = absurd (h refl)
    came_back (some (d', es)) h s = (d', es, refl, s)
