-- ===== src/Daemon/Packets/Once.antt =====
-- One batch of `handle_client_packets`: `swap_remove` neither skips a client nor serves one twice.
use mathlib.Core.List.{Perm, perm_middle}
use mathlib.Core.List.Perm
use zatch.Common.{
  ℕ, zero, suc, ◌+◌, ◌≤◌, ◌≡◌, List, [], ◌∷◌, ◌++◌, Option, none, some, true, false, length,
  get_elem?, drop, drop_all, retain, refl, ap, ◌∙◌, arith, Bool-cases, Option-cases, inl, inr,
  append-nil,
}
use zatch.Wire.{read_from}
use zatch.Daemon.{Client, SessionDaemon, Effect, received, close, Handled}
use zatch.Daemon.Packets.{
  Batch, serve, Outcome, after_calls, drop_client, packets_loop, handle_client_packets,
}
use zatch.Daemon.Packets.Serve.{Ensures, Kept, serve-Kept}
use zatch.Daemon.Clients.{
  swap_remove, swap_remove-perm, drop-swap_remove, length-swap_remove, drop-get_elem?, get_elem?-lt,
  get_elem?-le, All-swap_remove, retain-perm, swap_remove-map, get_elem?-map, length-map,
}
use zatch.Daemon.Inv.{
  IsValid, IsReplay, fds, received_fds, closed_fds, received_fds-append, closed_fds-append,
}

-- What a batch from client `i` on has done when it ends.
pub record Served (size : ℕ) (b : Batch) (i : ℕ) (d : SessionDaemon) (d' : SessionDaemon)
    (es : List Effect) : Type 0 where
  pub once : Perm (received_fds es) (retain b.readable (drop i (fds d.clients)))
  pub kept_or_closed : Perm (fds d.clients) (fds d'.clients ++ closed_fds es)
  pub valid : IsValid size d'
  pub same_ring : d'.scrollback ≡ d.scrollback
  pub same_log : d'.log ≡ d.log

abbrev pub Ends : (SessionDaemon → List Effect → Type 0) → Outcome → Type 0
Ends P none = Unit {0}
Ends P (some (d, es)) = P d es

module _ (size : ℕ) (b : Batch) (i : ℕ) (d : SessionDaemon) (v : IsValid size d) where
  at_end : length d.clients ≤ i → Served size b i d d []
  at_end le = record {
    once =
        rw (drop_all i (fds d.clients) (omega (arith, length-map (λ (c : Client). c.fd) d.clients)))
          Perm.nil;
    kept_or_closed = rw append-nil (Perm.refl _);
    valid = v;
    same_ring = refl;
    same_log = refl;
  }

  module _ (c : Client) (here : get_elem? d.clients i ≡ some c) where
    behind : drop i (fds d.clients) ≡ c.fd ∷ drop (i + 1) (fds d.clients)
    behind =
        drop-get_elem? (fds d.clients) i c.fd
          (get_elem?-map (λ (x : Client). x.fd) d.clients i c here)

    -- A client that is not readable is passed over.
    pass :
        (o : Outcome)
        → b.readable c.fd ≡ false
        → Ends (Served size b (i + 1) d) o
        → Ends (Served size b i d) o
    pass none q s = tt
    pass (some (d', es)) q s = record {
      once = rw (behind, q) s.once;
      kept_or_closed = s.kept_or_closed;
      valid = s.valid;
      same_ring = s.same_ring;
      same_log = s.same_log;
    }

    module _ (h : Handled) (k : Kept size d h) (q : b.readable c.fd ≡ true) where
      -- A client that was served and is kept.
      keep :
          (o : Outcome)
          → Ends (Served size b (i + 1) h.daemon) o
          → Ends (Served size b i d) (after_calls (received c.fd ∷ h.effects) o)
      keep none s = tt
      keep (some (d', es)) s = record {
        once =
            rw (received_fds-append, k.no_reads, behind, q, ← k.same_fds) (Perm.cons c.fd s.once);
        kept_or_closed = rw (closed_fds-append, k.no_closes, ← k.same_fds) s.kept_or_closed;
        valid = s.valid;
        same_ring = s.same_ring ∙ k.same_ring;
        same_log = s.same_log ∙ k.same_log;
      }

      here' : get_elem? (fds d.clients) i ≡ some c.fd
      here' = get_elem?-map (λ (x : Client). x.fd) d.clients i c here

      later : fds (drop_client h.daemon i).clients ≡ swap_remove (fds d.clients) i
      later = rw (← swap_remove-map (λ (x : Client). x.fd) h.daemon.clients i, k.same_fds)

      reads :
          (es : List Effect) → received_fds ((h.effects ++ close c.fd ∷ []) ++ es) ≡ received_fds es
      reads es = rw (
        received_fds-append (h.effects ++ close c.fd ∷ []) es,
        received_fds-append h.effects (close c.fd ∷ []),
        k.no_reads,
      )

      closes :
          (es : List Effect)
          → closed_fds ((h.effects ++ close c.fd ∷ []) ++ es) ≡ c.fd ∷ closed_fds es
      closes es = rw (
        closed_fds-append (h.effects ++ close c.fd ∷ []) es,
        closed_fds-append h.effects (close c.fd ∷ []),
        k.no_closes,
      )

      -- A client that was served and is closed.
      remove :
          (o : Outcome)
          → Ends (Served size b i (drop_client h.daemon i)) o
          → Ends
              (Served size b i d)
              (after_calls (received c.fd ∷ (h.effects ++ close c.fd ∷ [])) o)
      remove none s = tt
      remove (some (d', es)) s = record {
        once = rw (reads es) (
            Perm.trans (Perm.cons c.fd (rw later at s.once)) (
              Perm.symm (
                rw q at (retain-perm b.readable (drop-swap_remove (fds d.clients) i c.fd here')))));
        kept_or_closed = rw (closes es) (
            Perm.trans (swap_remove-perm (fds d.clients) i c.fd here') (
              Perm.trans (Perm.cons c.fd (rw later at s.kept_or_closed))
                (Perm.symm (perm_middle (fds d'.clients) (closed_fds es)))));
        valid = s.valid;
        same_ring = s.same_ring ∙ k.same_ring;
        same_log = s.same_log ∙ k.same_log;
      }

pub kept-IsValid :
    (size : ℕ) {d : SessionDaemon} {h : Handled}
    → IsValid size d
    → Kept size d h
    → IsValid size h.daemon
kept-IsValid size v k = record { ring = rw k.same_ring v.ring; replays = k.replays }

pub same_length :
    (size : ℕ) (d : SessionDaemon) (h : Handled)
    → Kept size d h
    → length h.daemon.clients ≡ length d.clients
same_length size d h k = omega (
  arith,
  ap length k.same_fds,
  length-map (λ (c : Client). c.fd) h.daemon.clients,
  length-map (λ (c : Client). c.fd) d.clients,
)

pub drop_client-IsValid :
    (size i : ℕ) {d : SessionDaemon} → IsValid size d → IsValid size (drop_client d i)
drop_client-IsValid size i {d} v = record {
  ring = v.ring;
  replays = All-swap_remove (IsReplay size) d.clients i v.replays;
}

loop-Served :
    (size : ℕ) (b : Batch) (fuel i : ℕ) (d : SessionDaemon)
    → IsValid size d
    → length d.clients ≤ i + fuel
    → Ends (Served size b i d) (packets_loop size b fuel i d)
unfolding packets_loop
loop-Served size b zero i d v le = at_end size b i d v (omega arith)
loop-Served size b (suc fuel) i d v le = elim (Option-cases (get_elem? d.clients i)) [
  | inl e ↦ rw (e, packets_loop) (at_end size b i d v (get_elem?-le d.clients i e))
  | inr (c, e) ↦ elim (Bool-cases (b.readable c.fd)) [
    | inl q ↦
        rw (e, packets_loop, q)
          (round c e q (serve size b d i c (read_from (b.reads c.fd)).result)
            (serve-Kept size b d i c e v (read_from (b.reads c.fd)).result)
            (λ h k.
              loop-Served size b fuel (i + 1) h.daemon (kept-IsValid size v k)
                (omega (arith, same_length size d h k)))
            (λ h k.
              loop-Served size b fuel i (drop_client h.daemon i)
                (drop_client-IsValid size i (kept-IsValid size v k))
                (omega (
                  arith,
                  same_length size d h k,
                  get_elem?-lt d.clients i c e,
                  length-swap_remove h.daemon.clients i,
                ))))
    | inr q ↦
        rw (e, packets_loop, q)
          (pass size b i d v c e (packets_loop size b fuel (i + 1) d) q
            (loop-Served size b fuel (i + 1) d v (omega arith)))
  ]
]
  where
    round :
        (c : Client) (e : get_elem? d.clients i ≡ some c) (q : b.readable c.fd ≡ true)
        (s : Option Handled)
        → Ensures (Kept size d) s
        → ((h : Handled)
            → Kept size d h
            → Ends (Served size b (i + 1) h.daemon) (packets_loop size b fuel (i + 1) h.daemon))
        → ((h : Handled)
            → Kept size d h
            → Ends
                (Served size b i (drop_client h.daemon i))
                (packets_loop size b fuel i (drop_client h.daemon i)))
        → Ends (Served size b i d) (elim s [
          | none ↦ none
          | some h ↦ elim h.keep [
            | true ↦
                after_calls (received c.fd ∷ h.effects) (packets_loop size b fuel (i + 1) h.daemon)
            | false ↦
                after_calls
                  (received c.fd ∷ (h.effects ++ close c.fd ∷ []))
                  (packets_loop size b fuel i (drop_client h.daemon i))
          ]
        ])
    round c e q none k f g = tt
    round c e q (some h) k f g = elim (Bool-cases h.keep) [
      | inl t ↦
          rw t (keep size b i d v c e h k q (packets_loop size b fuel (i + 1) h.daemon) (f h k))
      | inr t ↦ rw t (
          remove size b i d v c e h k q (packets_loop size b fuel i (drop_client h.daemon i))
            (g h k))
    ]

-- A batch that starts in a state that satisfies the invariant, and comes back, has read one packet
-- from each client that `select` reported readable, from no other, and from none twice, though the
-- list shrinks under the loop; each client is at the end either still in the list or closed, once;
-- the invariant holds; the ring and the log are as they were.
pub handle_client_packets-Served :
    (size : ℕ) (b : Batch) (d : SessionDaemon)
    → IsValid size d
    → Ends (Served size b 0 d) (handle_client_packets size b d)
unfolding handle_client_packets
handle_client_packets-Served size b d v = loop-Served size b (length d.clients) 0 d v (omega arith)
