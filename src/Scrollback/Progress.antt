-- ===== src/Scrollback/Progress.antt =====
-- What one call of `ReplayState::drain` on a descriptor that does not block gets done.
use zatch.Common.{
  ℕ, zero, suc, ◌+◌, ◌-◌, ◌%◌, ◌≤◌, ◌<◌, ◌≡◌, ◌≢◌, min, List, [], ◌∷◌, length, arith, true,
}
use zatch.Os.{Write, room, interrupted, would_block, failed}
use zatch.Scrollback.{ReplayState, drain, returned, waiting}
use zatch.Scrollback.Replay.{drain-Replays}

-- The answers end, after any others, with an error other than EINTR, as a full buffer's do.
abbrev pub Settles : List Write → Type 0
Settles [] = ⊥
Settles (would_block ∷ answers) = Unit {0}
Settles (failed e ∷ answers) = Unit {0}
Settles (_ ∷ answers) = Settles answers

-- The first answer other than EINTR lets bytes through.
abbrev pub Moves : List Write → Type 0
Moves (room (suc k) ∷ answers) = Unit {0}
Moves (interrupted ∷ answers) = Moves answers
Moves _ = ⊥

pub drain-settled :
    (size : ℕ) (buf : List ℕ) (answers : List Write) (rs : ReplayState)
    → Settles answers
    → (drain size buf rs answers).result ≢ waiting
unfolding drain
drain-settled size buf [] rs s = elim s [ ]
drain-settled size buf (room k ∷ answers) rs s =
    let n = min (min (size - rs.head) rs.remaining) k in
    ground (
      arith,
      drain-settled size buf answers
          (record { head = (rs.head + n) % size; remaining = rs.remaining - n }) s,
    )
drain-settled size buf (interrupted ∷ answers) rs s =
    ground (arith, drain-settled size buf answers rs s)
drain-settled size buf (would_block ∷ answers) rs s = ground arith
drain-settled size buf (failed e ∷ answers) rs s = ground arith

-- A call that leaves nothing to be sent reports no error.
pub drain-over :
    (size : ℕ) (buf : List ℕ) (answers : List Write) (rs : ReplayState)
    → (drain size buf rs answers).state.remaining ≡ 0
    → (drain size buf rs answers).result ≡ returned true
unfolding drain
drain-over size buf [] rs = ground arith
drain-over size buf (room k ∷ answers) rs =
    let n = min (min (size - rs.head) rs.remaining) k in
    ground (
      arith,
      drain-over size buf answers
          (record { head = (rs.head + n) % size; remaining = rs.remaining - n }),
    )
drain-over size buf (interrupted ∷ answers) rs = ground (arith, drain-over size buf answers rs)
drain-over size buf (would_block ∷ answers) rs = ground arith
drain-over size buf (failed e ∷ answers) rs = ground arith

pub drain-less :
    (size : ℕ) (buf : List ℕ) (answers : List Write) (rs : ReplayState)
    → length buf ≡ size
    → rs.head < size
    → rs.remaining ≤ size
    → 0 < rs.remaining
    → Moves answers
    → (drain size buf rs answers).state.remaining < rs.remaining
unfolding drain
drain-less size buf [] rs full hh hr some_left m = elim m [ ]
drain-less size buf (room zero ∷ answers) rs full hh hr some_left m = elim m [ ]
drain-less size buf (room (suc k) ∷ answers) rs full hh hr some_left m =
    let n = min (min (size - rs.head) rs.remaining) (suc k) in
    let next : ReplayState = record { head = (rs.head + n) % size; remaining = rs.remaining - n } in
    let later = drain-Replays size buf full answers next (omega arith) (omega arith) in
    ground (arith, later.less)
drain-less size buf (interrupted ∷ answers) rs full hh hr some_left m =
    ground (arith, drain-less size buf answers rs full hh hr some_left m)
drain-less size buf (would_block ∷ answers) rs full hh hr some_left m = elim m [ ]
drain-less size buf (failed e ∷ answers) rs full hh hr some_left m = elim m [ ]
