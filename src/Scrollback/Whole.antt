-- ===== src/Scrollback/Whole.antt =====
-- `ReplayState::drain` for a client that takes all that it is given: two writes are enough.
use zatch.Common.{
  ℕ, ◌+◌, ◌-◌, ◌%◌, ◌≤◌, ◌<◌, ◌≡◌, ◌⊎◌, inl, inr, ◌++◌, min, List, [], ◌∷◌, length, ltb, ltb→lt,
  ltb→le, lt→ltb, true, arith, Bool-cases, sym, ap, ◌∙◌, append-nil,
}
use zatch.Os.{Write, room}
use zatch.Scrollback.{ReplayState, Drained, returned, drain}
use zatch.Scrollback.Window.{window, round}
use zatch.Scrollback.Replay.{drain-Replays}

drain-done :
    (size : ℕ) (buf : List ℕ) (rs : ReplayState) (answers : List Write)
    → rs.remaining ≡ 0
    → ((drain size buf rs answers).result ≡ returned true)
      × ((drain size buf rs answers).state ≡ rs)
unfolding drain
drain-done size buf rs [] e = ground arith
drain-done size buf rs (a ∷ answers) e = ground arith

-- The state after a write of all that there is room for.
abbrev next_state : ℕ → ReplayState → ℕ → ReplayState
next_state size rs k =
    let n = min (min (size - rs.head) rs.remaining) k in
    record { head = (rs.head + n) % size; remaining = rs.remaining - n }

drain-room :
    (size : ℕ) (buf : List ℕ) (rs : ReplayState) (k : ℕ) (answers : List Write)
    → 0 < rs.remaining
    → ((drain size buf rs (room k ∷ answers)).result
        ≡ (drain size buf (next_state size rs k) answers).result)
      × ((drain size buf rs (room k ∷ answers)).state
          ≡ (drain size buf (next_state size rs k) answers).state)
unfolding drain
drain-room size buf rs k answers h =
    let e = lt→ltb 0 rs.remaining h in (rw (e, drain), rw (e, drain))

abbrev IsDone : Drained → Type 0
IsDone d = (d.result ≡ returned true) × (d.state.remaining ≡ 0)

drain-IsDone :
    (size : ℕ) (buf : List ℕ) (rs : ReplayState) (answers : List Write)
    → rs.remaining ≡ 0
    → IsDone (drain size buf rs answers)
drain-IsDone size buf rs answers e =
    let q = drain-done size buf rs answers e in (q.0, ap (λ (s : ReplayState). s.remaining) q.1 ∙ e)

drain-room_IsDone :
    (size : ℕ) (buf : List ℕ) (rs : ReplayState) (k : ℕ) (answers : List Write)
    → IsDone (drain size buf (next_state size rs k) answers)
    → IsDone (drain size buf rs (room k ∷ answers))
drain-room_IsDone size buf rs k answers h = elim (Bool-cases (ltb 0 rs.remaining)) [
  | inl e ↦
      let q = drain-room size buf rs k answers (ltb→lt 0 rs.remaining e) in
      (q.0 ∙ h.0, ap (λ (s : ReplayState). s.remaining) q.1 ∙ h.1)
  | inr e ↦ drain-IsDone size buf rs (room k ∷ answers) (omega (arith, ltb→le 0 rs.remaining e))
]

-- Two writes are enough for a whole replay inside the ring, one for each side of the end of the
-- storage, if each could take all that remains: then nothing remains, and all of the replay was sent.
pub drain-whole :
    (size : ℕ) (buf : List ℕ) (rs : ReplayState) (a b : ℕ) (answers : List Write)
    → length buf ≡ size
    → rs.head < size
    → rs.remaining ≤ size
    → rs.remaining ≤ a
    → rs.remaining ≤ b
    → let d = drain size buf rs (room a ∷ room b ∷ answers) in
      (d.result ≡ returned true)
      × (d.state.remaining ≡ 0)
      × (d.sent ≡ window size buf rs.head rs.remaining)
drain-whole size buf rs a b answers full hh hr ha hb =
    let answered = room a ∷ room b ∷ answers in
    let q = drain-Replays size buf full answered rs hh hr in
    let (r, z) = ends in
    (
      r,
      z,
      sym (append-nil _) ∙ ap (◌++◌ (drain size buf rs answered).sent) (sym (empty z)) ∙ q.bytes,
    )
  where
    second : ReplayState
    second = next_state size rs a

    third : ReplayState
    third = next_state size second b

    -- After the first write the state stands at the start of the storage, unless it is done.
    wrapped : (second.remaining ≡ 0) ⊎ (second.head ≡ 0)
    wrapped = ground (arith, round size rs.head (min (min (size - rs.head) rs.remaining) a))

    nothing_left : third.remaining ≡ 0
    nothing_left = elim wrapped [ inl e ↦ omega arith | inr e ↦ omega arith ]

    ends : IsDone (drain size buf rs (room a ∷ room b ∷ answers))
    ends = drain-room_IsDone size buf rs a (room b ∷ answers) (
        drain-room_IsDone size buf second b answers
          (drain-IsDone size buf third answers nothing_left))

    empty :
        (drain size buf rs (room a ∷ room b ∷ answers)).state.remaining ≡ 0
        → window size buf
            (drain size buf rs (room a ∷ room b ∷ answers)).state.head
            (drain size buf rs (room a ∷ room b ∷ answers)).state.remaining
          ≡ []
    empty z = rw z
