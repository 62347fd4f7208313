-- ===== src/Daemon/Run/Liveness.antt =====
-- A client whose replay is under way becomes live: the rounds of `drain_replay` come to an end.
use zatch.Common.{
  ℕ, zero, suc, ◌≡◌, ◌≢◌, ◌≤◌, ◌<◌, List, [], ◌∷◌, ◌++◌, Option, none, some, Bool, true, false,
  ◌&&◌, length, get_elem?, ltb, ltb→lt, ltb→le, lt→ltb, le→ltb, refl, arith, Bool-cases, inl, inr,
  if◌then◌else◌, ◌==◌, All,
}
use zatch.Os.{Write}
use zatch.Scrollback.{ReplayState, Drained, drain, DrainResult, returned, waiting}
use zatch.Scrollback.Replay.{drain-Replays}
use zatch.Scrollback.Progress.{Settles, Moves, drain-settled, drain-over, drain-less}
use zatch.Daemon.{Client, Effect}
use zatch.Daemon.Inv.{IsReplay}
use zatch.Daemon.Run.{drain_replay, drained, cons_client}

-- One round: the ring's bytes, what `select` reports writable, and the answers to the writes.
pub record ReplayRound : Type 0 where
  pub buf : List ℕ
  pub writable : ℕ → Bool
  pub writes : ℕ → List Write

-- The calls of `drain_replay` in one round after another.
abbrev pub replay_rounds : ℕ → List ReplayRound → List Client → Option (List Client × List Effect)
replay_rounds size [] cs = some (cs, [])
replay_rounds size (r ∷ rounds) cs = elim (drain_replay size r.buf r.writable r.writes cs) [
  | none ↦ none
  | some (cs', es) ↦ elim (replay_rounds size rounds cs') [
    | none ↦ none
    | some (cs'', fs) ↦ some (cs'', es ++ fs)
  ]
]

-- The round came back, and client `i` is then as `P` says.
abbrev pub Follows : (Client → Type 0) → ℕ → Option (List Client × List Effect) → Type 0
Follows P i o =
    (cs : List Client) × (es : List Effect) × (o ≡ some (cs, es))
    × (c : Client) × (get_elem? cs i ≡ some c)
    × P c

-- What one round in which it can be written to does to a client: it is the same client, its replay
-- is inside the ring and shorter, and it is attached if the replay is over.
pub record Advances (size : ℕ) (c c' : Client) : Type 0 where
  pub same_fd : c'.fd ≡ c.fd
  pub inside : IsReplay size c'
  pub less : c'.replay_remaining < c.replay_remaining
  pub over : c'.replay_remaining ≡ 0 → c'.attached ≡ true

pub cons_client-here :
    (P : Client → Type 0) (oc : Option Client) (es : List Effect)
    (rest : Option (List Client × List Effect)) (c : Client)
    → oc ≡ some c
    → rest ≢ none
    → P c
    → Follows P 0 (cons_client oc es rest)
cons_client-here P none es rest c e h p = cc
cons_client-here P (some x) es none c e h p = absurd (h refl)
cons_client-here P (some x) es (some (cs, fs)) c e h p =
    let same : x ≡ c = cc in (x ∷ cs, es ++ fs, refl, x, refl, rw same p)

pub cons_client-behind :
    (P : Client → Type 0) (i : ℕ) (oc : Option Client) (es : List Effect)
    (rest : Option (List Client × List Effect))
    → oc ≢ none
    → Follows P i rest
    → Follows P (suc i) (cons_client oc es rest)
cons_client-behind P i none es rest h f = absurd (h refl)
cons_client-behind P i (some x) es none h (cs, fs, e, c, here, p) = absurd (cc)
cons_client-behind P i (some x) es (some (ds, gs)) h (cs, fs, e, c, here, p) =
    let lists : ds ≡ cs = cc in (x ∷ ds, es ++ gs, refl, c, rw lists here, p)

cons_client-returns :
    (oc : Option Client) (es : List Effect) (rest : Option (List Client × List Effect))
    → oc ≢ none
    → rest ≢ none
    → cons_client oc es rest ≢ none
cons_client-returns none es rest h k = λ q. h refl
cons_client-returns (some c) es none h k = λ q. k refl
cons_client-returns (some c) es (some (cs, fs)) h k = λ q. cc

drained-returns :
    (c : Client) (rs : ReplayState) (r : DrainResult) → r ≢ waiting → drained c rs r ≢ none
unfolding drained
drained-returns c rs waiting h = λ q. h refl
drained-returns c rs (returned done) h = λ q. cc

-- What `drained` makes of a call that came back.
drained-Advances :
    (size : ℕ) (c : Client) (rs : ReplayState) (r : DrainResult)
    → r ≢ waiting
    → (rs.remaining ≡ 0 → r ≡ returned true)
    → rs.head < size
    → rs.remaining ≤ size
    → rs.remaining < c.replay_remaining
    → (c' : Client) × (drained c rs r ≡ some c') × Advances size c c'
unfolding drained
drained-Advances size c rs waiting h over hh hr l = absurd (h refl)
drained-Advances size c rs (returned done) h over hh hr l = (
  record c {
    attached = if done && rs.remaining == 0 then true else c.attached;
    replay_head = rs.head;
    replay_remaining = rs.remaining;
  },
  refl,
  record {
    same_fd = refl;
    inside = (hh, hr);
    less = l;
    over = λ z.
        let d : done ≡ true = done_of done (over z) in
        let n : rs.remaining == 0 ≡ true = ground arith in rw (d, n) refl;
  },
)
  where
    done_of : (b : Bool) → returned b ≡ returned true → b ≡ true
    done_of true e = refl
    done_of false e = cc

module _ (size : ℕ) (r : ReplayRound) (full : length r.buf ≡ size)
    (settled : (fd : ℕ) → Settles (r.writes fd)) where
  -- What `drain` is called with, and what it leaves.
  abbrev start : Client → ReplayState
  start c = record { head = c.replay_head; remaining = c.replay_remaining }

  abbrev after : Client → Drained
  after c = drain size r.buf (start c) (r.writes c.fd)

  pub came_back : (c : Client) → drained c (after c).state (after c).result ≢ none
  came_back c =
      drained-returns c (after c).state (after c).result
        (drain-settled size r.buf (r.writes c.fd) (start c) (settled c.fd))

  pub drain_replay-returns :
      (cs : List Client) → drain_replay size r.buf r.writable r.writes cs ≢ none
  unfolding drain_replay
  drain_replay-returns [] = λ q. cc
  drain_replay-returns (c ∷ cs) =
      let later = drain_replay-returns cs in
      elim (Bool-cases (ltb 0 c.replay_remaining && r.writable c.fd)) [
        | inl e ↦ rw (e, drain_replay) (cons_client-returns _ _ _ (came_back c) later)
        | inr e ↦ rw (e, drain_replay) (cons_client-returns (some c) [] _ (λ q. cc) later)
      ]

  advance :
      (c : Client)
      → IsReplay size c
      → 0 < c.replay_remaining
      → Moves (r.writes c.fd)
      → (c' : Client) × (drained c (after c).state (after c).result ≡ some c') × Advances size c c'
  advance c v pending m =
      let q = drain-Replays size r.buf full (r.writes c.fd) (start c) v.0 v.1 in
      drained-Advances size c (after c).state (after c).result
        (drain-settled size r.buf (r.writes c.fd) (start c) (settled c.fd))
        (drain-over size r.buf (r.writes c.fd) (start c)) q.head_in (omega (arith, q.less, v.1))
        (drain-less size r.buf (r.writes c.fd) (start c) full v.0 v.1 pending m)

  -- A client that can be written to advances.
  drain_replay-Advances :
      (cs : List Client) (i : ℕ) (c : Client)
      → get_elem? cs i ≡ some c
      → IsReplay size c
      → 0 < c.replay_remaining
      → r.writable c.fd ≡ true
      → Moves (r.writes c.fd)
      → Follows (Advances size c) i (drain_replay size r.buf r.writable r.writes cs)
  unfolding drain_replay
  drain_replay-Advances [] i c here v pending w m = absurd (cc)
  drain_replay-Advances (x ∷ cs) zero c here v pending w m =
      let same : x ≡ c = cc in
      let (c', e, a) = advance c v pending m in
      rw (same, lt→ltb 0 c.replay_remaining pending, w)
        (cons_client-here (Advances size c) _ _ _ c' e (drain_replay-returns cs) a)
  drain_replay-Advances (x ∷ cs) (suc i) c here v pending w m =
      let later = drain_replay-Advances cs i c here v pending w m in
      elim (Bool-cases (ltb 0 x.replay_remaining && r.writable x.fd)) [
        | inl e ↦
            rw (e, drain_replay) (cons_client-behind (Advances size c) i _ _ _ (came_back x) later)
        | inr e ↦
            rw (e, drain_replay)
              (cons_client-behind (Advances size c) i (some x) [] _ (λ q. cc) later)
      ]

  -- A client whose replay is over stays as it is.
  drain_replay-stays :
      (cs : List Client) (i : ℕ) (c : Client)
      → get_elem? cs i ≡ some c
      → c.replay_remaining ≡ 0
      → Follows (λ c'. c' ≡ c) i (drain_replay size r.buf r.writable r.writes cs)
  unfolding drain_replay
  drain_replay-stays [] i c here over = absurd (cc)
  drain_replay-stays (x ∷ cs) zero c here over =
      let same : x ≡ c = cc in
      rw (same, le→ltb 0 c.replay_remaining (omega arith))
        (cons_client-here (λ c'. c' ≡ c) (some c) [] _ c refl (drain_replay-returns cs) refl)
  drain_replay-stays (x ∷ cs) (suc i) c here over =
      let later = drain_replay-stays cs i c here over in
      elim (Bool-cases (ltb 0 x.replay_remaining && r.writable x.fd)) [
        | inl e ↦
            rw (e, drain_replay) (cons_client-behind (λ c'. c' ≡ c) i _ _ _ (came_back x) later)
        | inr e ↦
            rw (e, drain_replay) (cons_client-behind (λ c'. c' ≡ c) i (some x) [] _ (λ q. cc) later)
      ]

-- A round in which the descriptor `fd` takes bytes; no write of any descriptor stays out.
pub record Open (size fd : ℕ) (r : ReplayRound) : Type 0 where
  pub full : length r.buf ≡ size
  pub settled : (g : ℕ) → Settles (r.writes g)
  pub ready : r.writable fd ≡ true
  pub moves : Moves (r.writes fd)

-- The client with descriptor `fd` is attached, with nothing left to be sent.
abbrev pub Live : ℕ → Client → Type 0
Live fd c = (c.fd ≡ fd) × (c.attached ≡ true) × (c.replay_remaining ≡ 0)

-- A first round, and then the others.
rounds-Follows :
    (size : ℕ) (rounds : List ReplayRound) (P Q : Client → Type 0) (i : ℕ)
    (first : Option (List Client × List Effect))
    → Follows P i first
    → ((cs : List Client) (c : Client)
        → get_elem? cs i ≡ some c
        → P c
        → Follows Q i (replay_rounds size rounds cs))
    → Follows Q i (elim first [
      | none ↦ none
      | some (cs', es) ↦ elim (replay_rounds size rounds cs') [
        | none ↦ none
        | some (cs'', fs) ↦ some (cs'', es ++ fs)
      ]
    ])
rounds-Follows size rounds P Q i first (cs, es, e, c, here, p) f =
    let (ds, gs, e', c', here', q) = f cs c here p in rw (e, e') (ds, es ++ gs, refl, c', here', q)

rounds-Live :
    (size : ℕ) (rounds : List ReplayRound) (cs : List Client) (i : ℕ) (c : Client)
    → get_elem? cs i ≡ some c
    → IsReplay size c
    → All (Open size c.fd) rounds
    → c.replay_remaining ≤ length rounds
    → (c.replay_remaining ≡ 0 → c.attached ≡ true)
    → Follows (Live c.fd) i (replay_rounds size rounds cs)
rounds-Live size [] cs i c here v opened enough over =
    let z : c.replay_remaining ≡ 0 = omega arith in (cs, [], refl, c, here, (refl, over z, z))
rounds-Live size (r ∷ rounds) cs i c here v opened enough over =
    elim (Bool-cases (ltb 0 c.replay_remaining)) [
      | inl e ↦
          rounds-Follows size rounds (Advances size c) (Live c.fd) i _
            (drain_replay-Advances size r opened.0.full opened.0.settled cs i c here v
              (ltb→lt 0 c.replay_remaining e) opened.0.ready opened.0.moves)
            (λ ds c' here' a. rw (← a.same_fd) (
              rounds-Live size rounds ds i c' here' a.inside (rw a.same_fd opened.1)
                (omega (arith, a.less)) a.over))
      | inr e ↦
          rounds-Follows size rounds (λ c'. c' ≡ c) (Live c.fd) i _
            (drain_replay-stays size r opened.0.full opened.0.settled cs i c here
              (omega (arith, ltb→le 0 c.replay_remaining e)))
            (λ ds c' here' same.
              rounds-Live size rounds ds i c (rw (← same) here') v opened.1
                (omega (arith, ltb→le 0 c.replay_remaining e)) over)
    ]

-- A client whose replay is under way, inside the ring, becomes live: after as many rounds of
-- `drain_replay` as there are bytes to send, in each of which its descriptor is writable and takes
-- one byte at least, and each descriptor's writes end, all rounds have come back, and it is
-- attached, with nothing left to be sent; whatever the others do, and whatever the ring holds.
pub replay-Live :
    (size : ℕ) (rounds : List ReplayRound) (cs : List Client) (i : ℕ) (c : Client)
    → get_elem? cs i ≡ some c
    → IsReplay size c
    → All (Open size c.fd) rounds
    → 0 < c.replay_remaining
    → c.replay_remaining ≤ length rounds
    → Follows (Live c.fd) i (replay_rounds size rounds cs)
replay-Live size rounds cs i c here v opened pending enough =
    rounds-Live size rounds cs i c here v opened enough (λ z. absurd (omega arith))
