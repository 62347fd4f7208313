-- ===== src/Scrollback/Replay.antt =====
-- `ReplayState::drain`: what a client is sent of the ring, and when the call returns.
use zatch.Common.{
  ℕ, zero, suc, ◌+◌, ◌-◌, ◌%◌, ◌≤◌, ◌<◌, ◌≡◌, ◌≢◌, inl, inr, ◌++◌, min, List, [], ◌∷◌, length,
  get_or, take, drop, length-tabulate, get_or-tabulate, length-append, length-drop, length-take,
  get_or-append, get_or-drop, get_or-take, list_ext, ltb, ltb→lt, ltb→le, arith, Bool-cases, refl,
  sym, ap, ◌∙◌, append_assoc,
}
use zatch.Os.{progress, Write, room, interrupted, would_block, failed}
use zatch.Scrollback.{ReplayState, Drained, DrainResult, waiting, drain}
use zatch.Scrollback.Window.{window, round}

-- A write of `n` contiguous bytes and the window that is left make up the window.
module _ (size : ℕ) (buf : List ℕ) (h n rem : ℕ) (full : length buf ≡ size) (hh : h < size)
    (fits : rem ≤ size) (contiguous : n ≤ size - h) (enough : n ≤ rem) where
  abbrev old_byte : ℕ → ℕ
  old_byte i = get_or buf ((h + i) % size) 0

  abbrev later_byte : ℕ → ℕ
  later_byte i = get_or buf (((h + n) % size + i) % size) 0

  length-piece : length (take n (drop h buf)) ≡ n
  length-piece = omega (arith, length-take n (drop h buf), length-drop h buf)

  same_place : (i : ℕ) → n ≤ i → i < rem → ((h + n) % size + (i - n)) % size ≡ (h + i) % size
  same_place i ge lt =
      ground (arith, round size h n, round size ((h + n) % size) (i - n), round size h i)

  window-split_at :
      (i : ℕ)
      → i < rem
      → get_or (take n (drop h buf) ++ window size buf ((h + n) % size) (rem - n)) i 0 ≡ old_byte i
  window-split_at i lt =
      rw
        (
          get_or-append (take n (drop h buf)) (window size buf ((h + n) % size) (rem - n)) i 0,
          length-piece,
        )
        (elim (Bool-cases (ltb i n)) [
          | inl e ↦
              let k : i < n = ltb→lt i n e in
              let place : h + i ≡ (h + i) % size = ground (arith, round size h i) in
              rw (e, get_or-take n (drop h buf) i 0 k, get_or-drop h buf i 0)
                (ap (λ t. get_or buf t 0) place)
          | inr e ↦
              let k : n ≤ i = ltb→le i n e in
              rw (e, get_or-tabulate (rem - n) later_byte (i - n) 0 (omega arith))
                (ap (λ t. get_or buf t 0) (same_place i k lt))
        ])

  window-split :
      take n (drop h buf) ++ window size buf ((h + n) % size) (rem - n) ≡ window size buf h rem
  window-split =
      list_ext _ _ 0 lengths λ i lt.
        window-split_at i (within i lt) ∙ sym (get_or-tabulate rem old_byte i 0 (within i lt))
    where
      lengths :
          length (take n (drop h buf) ++ window size buf ((h + n) % size) (rem - n))
          ≡ length (window size buf h rem)
      lengths = omega (
        arith,
        length-append (take n (drop h buf)) (window size buf ((h + n) % size) (rem - n)),
        length-piece,
        length-tabulate (rem - n) later_byte,
        length-tabulate rem old_byte,
      )

      within :
          (i : ℕ)
          → i < length (take n (drop h buf) ++ window size buf ((h + n) % size) (rem - n))
          → i < rem
      within i lt = omega (arith, lengths, length-tabulate rem old_byte)

module _ (size : ℕ) (buf : List ℕ) (full : length buf ≡ size) where
  -- What a client was sent (`d.sent`) and what is still to be sent make up what was to be sent.
  pub record Replays (rs : ReplayState) (d : Drained) : Type 0 where
    pub bytes :
        d.sent ++ window size buf d.state.head d.state.remaining
        ≡ window size buf rs.head rs.remaining
    pub head_in : d.state.head < size
    pub less : d.state.remaining ≤ rs.remaining
    pub room_made : length d.sent + d.state.remaining ≡ rs.remaining

  -- A call that sends nothing more.
  stay :
      (rs : ReplayState) (r : DrainResult) (left : List Write)
      → rs.head < size
      → Replays rs (record { result = r; state = rs; sent = []; left = left })
  stay rs r left hh = record {
    bytes = refl;
    head_in = hh;
    less = omega arith;
    room_made = omega arith;
  }

  -- A call that sends a piece, and then what the later call sends.
  piece :
      (rs : ReplayState) (n : ℕ) (d : Drained)
      → rs.head < size
      → rs.remaining ≤ size
      → n ≤ size - rs.head
      → n ≤ rs.remaining
      → Replays (record { head = (rs.head + n) % size; remaining = rs.remaining - n }) d
      → Replays rs (record d { sent = take n (drop rs.head buf) ++ d.sent })
  piece rs n d hh hr c e r = record {
    bytes =
        rw (append_assoc, r.bytes) (window-split size buf rs.head n rs.remaining full hh hr c e);
    head_in = r.head_in;
    less = omega (arith, r.less);
    room_made = omega (
      arith,
      r.room_made,
      length-append (take n (drop rs.head buf)) d.sent,
      length-piece size buf rs.head n rs.remaining full hh hr c e,
    );
  }

  -- From a replay that stands inside a ring of full size, `drain` sends a prefix of what was to be
  -- sent, in order and without a gap, and its state then names exactly the rest; whatever the
  -- kernel answers.
  pub drain-Replays :
      (answers : List Write) (rs : ReplayState)
      → rs.head < size
      → rs.remaining ≤ size
      → Replays rs (drain size buf rs answers)
  unfolding drain
  drain-Replays [] rs hh hr = elim (Bool-cases (ltb 0 rs.remaining)) [
    | inl e ↦ rw e (stay rs _ _ hh)
    | inr e ↦ rw e (stay rs _ _ hh)
  ]
  drain-Replays (room space ∷ answers) rs hh hr = elim (Bool-cases (ltb 0 rs.remaining)) [
    | inl e ↦
        let n = min (min (size - rs.head) rs.remaining) space in
        let next : ReplayState = record {
          head = (rs.head + n) % size;
          remaining = rs.remaining - n;
        } in
        rw (e, drain)
          (piece rs n (drain size buf next answers) hh hr (omega arith) (omega arith)
            (drain-Replays answers next (omega arith) (omega arith)))
    | inr e ↦ rw (e, drain) (stay rs _ _ hh)
  ]
  drain-Replays (interrupted ∷ answers) rs hh hr = elim (Bool-cases (ltb 0 rs.remaining)) [
    | inl e ↦ rw (e, drain) (drain-Replays answers rs hh hr)
    | inr e ↦ rw (e, drain) (stay rs _ _ hh)
  ]
  drain-Replays (would_block ∷ answers) rs hh hr = elim (Bool-cases (ltb 0 rs.remaining)) [
    | inl e ↦ rw (e, drain) (stay rs _ _ hh)
    | inr e ↦ rw (e, drain) (stay rs _ _ hh)
  ]
  drain-Replays (failed n ∷ answers) rs hh hr = elim (Bool-cases (ltb 0 rs.remaining)) [
    | inl e ↦ rw (e, drain) (stay rs _ _ hh)
    | inr e ↦ rw (e, drain) (stay rs _ _ hh)
  ]

-- `drain` comes back, if its head is inside the ring, once the kernel let bytes through as often as
-- there are bytes to send, however few it takes at a time and however often it interrupts the call.
pub drain-returns :
    (size : ℕ) (buf : List ℕ) (answers : List Write) (rs : ReplayState)
    → rs.head < size
    → rs.remaining ≤ progress answers
    → (drain size buf rs answers).result ≢ waiting
unfolding drain
drain-returns size buf [] rs hh h = ground arith
drain-returns size buf (room zero ∷ answers) rs hh h = ground (
  arith,
  drain-returns size buf answers
      (record { head = (rs.head + 0) % size; remaining = rs.remaining - 0 }),
)
drain-returns size buf (room (suc k) ∷ answers) rs hh h =
    let n = min (min (size - rs.head) rs.remaining) (suc k) in
    ground (
      arith,
      drain-returns size buf answers
          (record { head = (rs.head + n) % size; remaining = rs.remaining - n }),
    )
drain-returns size buf (interrupted ∷ answers) rs hh h =
    ground (arith, drain-returns size buf answers rs hh)
drain-returns size buf (would_block ∷ answers) rs hh h = ground arith
drain-returns size buf (failed n ∷ answers) rs hh h = ground arith
