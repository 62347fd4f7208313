-- ===== src/Daemon/Run/Detach.antt =====
-- What becomes of a client that detaches while its replay is under way.
use zatch.Common.{
  ℕ, zero, suc, ◌≡◌, ◌≤◌, ◌<◌, List, [], ◌∷◌, Option, some, Bool, true, false, ◌&&◌, length, set,
  get_elem?, set, ltb, lt→ltb, refl, Bool-cases, inl, inr,
}
use zatch.Os.{Write, room}
use zatch.Scrollback.{ReplayState, DrainResult, returned}
use zatch.Scrollback.Whole.{drain-whole}
use zatch.Scrollback.Progress.{Settles}
use zatch.Daemon.{Client, SessionDaemon, Effect, handle_detach}
use zatch.Daemon.Inv.{IsValid, IsReplay}
use zatch.Daemon.Clients.{get_elem?-set, All-get_elem?}
use zatch.Daemon.Run.{drain_replay, drained}
use zatch.Daemon.Run.Liveness.{
  ReplayRound, Follows, cons_client-here, cons_client-behind, came_back, drain_replay-returns,
}

-- The round came back, and client `i` is attached.
abbrev pub Attached : ℕ → Option (List Client × List Effect) → Type 0
Attached i o = Follows (λ c. c.attached ≡ true) i o

-- A client whose replay is over is attached.
drained-Attached :
    (c : Client) (rs : ReplayState) (result : DrainResult)
    → result ≡ returned true
    → rs.remaining ≡ 0
    → (c' : Client) × (drained c rs result ≡ some c') × (c'.attached ≡ true)
unfolding drained
drained-Attached c rs result e over = rw (e, over) (_, refl, refl)

module _ (size : ℕ) (r : ReplayRound) (full : length r.buf ≡ size)
    (settled : (fd : ℕ) → Settles (r.writes fd)) where
  -- A client with a replay under way becomes attached when `drain_replay` can send the rest.
  drain_replay-Attached :
      (cs : List Client) (i : ℕ) (c : Client) (a b : ℕ) (answers : List Write)
      → get_elem? cs i ≡ some c
      → IsReplay size c
      → 0 < c.replay_remaining
      → r.writable c.fd ≡ true
      → r.writes c.fd ≡ room a ∷ room b ∷ answers
      → c.replay_remaining ≤ a
      → c.replay_remaining ≤ b
      → Attached i (drain_replay size r.buf r.writable r.writes cs)
  unfolding drain_replay
  drain_replay-Attached [] i c a b answers here v pending w ws ha hb = absurd (cc)
  drain_replay-Attached (x ∷ cs) zero c a b answers here v pending w ws ha hb =
      let same : x ≡ c = cc in
      let rs : ReplayState = record { head = c.replay_head; remaining = c.replay_remaining } in
      let q = drain-whole size r.buf rs a b answers full (v.0) (v.1) ha hb in
      let (c', e, attached) = drained-Attached c _ _ q.0 q.1 in
      rw (same, lt→ltb 0 c.replay_remaining pending, w, ws)
        (cons_client-here (λ c. c.attached ≡ true) _ _ _ c' e
          (drain_replay-returns size r full settled cs) attached)
  drain_replay-Attached (x ∷ cs) (suc i) c a b answers here v pending w ws ha hb =
      let rest = drain_replay-Attached cs i c a b answers here v pending w ws ha hb in
      elim (Bool-cases (ltb 0 x.replay_remaining && r.writable x.fd)) [
        | inl e ↦
            rw (e, drain_replay)
              (cons_client-behind (λ c. c.attached ≡ true) i _ _ _ (came_back size r full settled x)
                rest)
        | inr e ↦
            rw (e, drain_replay)
              (cons_client-behind (λ c. c.attached ≡ true) i (some x) [] _ (λ q. cc) rest)
      ]

-- In a state that satisfies the invariant, a client that detaches while its replay is under way is
-- not attached, but if it is writable and takes the rest of the replay, in two writes that each have
-- room for it, and no other descriptor's writes stay out, then `drain_replay` comes back and has
-- attached it again: nothing in `handle_detach` ends the replay.
pub detach_undone :
    (size : ℕ) (d : SessionDaemon) (writable : ℕ → Bool) (writes : ℕ → List Write) (i : ℕ)
    (c : Client) (a b : ℕ) (answers : List Write)
    → IsValid size d
    → get_elem? d.clients i ≡ some c
    → 0 < c.replay_remaining
    → ((fd : ℕ) → Settles (writes fd))
    → writable c.fd ≡ true
    → writes c.fd ≡ room a ∷ room b ∷ answers
    → c.replay_remaining ≤ a
    → c.replay_remaining ≤ b
    → let d' = (handle_detach d i c).daemon in
      ((x : Client) × (get_elem? d'.clients i ≡ some x) × (x.attached ≡ false))
      × Attached i (drain_replay size d'.scrollback.buf writable writes d'.clients)
unfolding handle_detach
detach_undone size d writable writes i c a b answers v here pending settled w ws ha hb =
    let c' : Client = record c { attached = false } in
    let placed = get_elem?-set d.clients i c c' here in
    let r : ReplayRound = record { buf = d.scrollback.buf; writable = writable; writes = writes } in
    (
      (c', placed, refl),
      drain_replay-Attached size r v.ring.full_size settled (set d.clients i c') i c' a b answers
          placed (All-get_elem? (IsReplay size) d.clients i c here v.replays) pending w ws ha hb,
    )
