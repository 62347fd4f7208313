-- ===== src/Wire/Receive.antt =====
-- `read_from`: a packet from a stream that comes in any number of pieces.
use zatch.Common.{
  ℕ, ◌+◌, ◌-◌, ◌≤◌, ◌<◌, ◌≡◌, ◌≢◌, inl, inr, ◌++◌, min, List, [], ◌∷◌, some, true, false, length,
  take, drop, copy_at, ltb, ltb→lt, ltb→le, lt→ltb, le→ltb, ◌==◌, ok, err, refl, sym, ap, ◌∙◌,
  arith, Bool-cases, List-cases, take-copy_at, take-append_ge, take-append_le, drop-append_le,
  drop-append_ge, take_all, drop_all, length-take, length-drop, length-append, length-copy_at,
  append_assoc, append-nil,
}
use zatch.Os.{Read}
use zatch.Wire.{would_block, to_bytes, of_bytes, Received, read_loop, read_from, new, push}

-- The bytes that a list of answers brings, until the stream pauses or ends.
abbrev pub stream : List Read → List ℕ
stream [] = []
stream (Read.chunk bs ∷ answers) = bs ++ stream answers
stream (Read.interrupted ∷ answers) = stream answers
stream (_ ∷ answers) = []

-- Bytes flow in chunks that are not empty, and calls are at most interrupted.
abbrev pub Flows : List Read → Type 0
Flows [] = Unit {0}
Flows (Read.chunk bs ∷ answers) = (bs ≢ []) × Flows answers
Flows (Read.interrupted ∷ answers) = Flows answers
Flows (_ ∷ answers) = ⊥

pub record Reads (want : List ℕ) (rest : List ℕ) (r : Received) : Type 0 where
  pub packet : r.result ≡ some (ok (of_bytes want))
  pub kept : stream r.left ≡ rest
  pub flows : Flows r.left

full_Reads :
    (answers : List Read) (off : ℕ) (buf : List ℕ)
    → length buf ≡ 10
    → 10 ≤ off
    → Flows answers
    → Reads
        (take off buf ++ take (10 - off) (stream answers))
        (drop (10 - off) (stream answers))
        (record { result = some (ok (of_bytes buf)); left = answers })
full_Reads answers off buf full le f =
    let none_more : 10 - off ≡ 0 = omega arith in
    rw (none_more, take_all off buf (omega arith), append-nil)
      (record { packet = refl; kept = refl; flows = f })

-- How much one `read` at offset `off` takes of a chunk, and the memory after it.
abbrev taken : ℕ → List ℕ → ℕ
taken off bs = min (10 - off) (length bs)

abbrev after : ℕ → List ℕ → List ℕ → List ℕ
after off buf bs = copy_at buf off (take (taken off bs) bs)

module _ (off : ℕ) (buf bs : List ℕ) (answers : List Read) (room_left : ltb off 10 ≡ true)
    (some_read : (taken off bs == 0) ≡ false) where
  read_small :
      drop (taken off bs) bs ≡ []
      → read_loop off buf (Read.chunk bs ∷ answers)
        ≡ read_loop (off + taken off bs) (after off buf bs) answers
  unfolding read_loop
  read_small d = rw (room_left, read_loop, some_read, d)

  read_large :
      (c : ℕ) (cs : List ℕ)
      → drop (taken off bs) bs ≡ c ∷ cs
      → read_loop off buf (Read.chunk bs ∷ answers) ≡ record {
        result = some (ok (of_bytes (after off buf bs)));
        left = Read.chunk (c ∷ cs) ∷ answers;
      }
  unfolding read_loop
  read_large c cs d = rw (room_left, read_loop, some_read, d)

-- One `read` at offset `off` of a chunk `bs`, with `s` behind it.
module _ (off : ℕ) (buf bs s : List ℕ) (full : length buf ≡ 10) (le : off ≤ 10) where
  abbrev n : ℕ
  n = taken off bs

  abbrev buf' : List ℕ
  buf' = after off buf bs

  length-buf' : length buf' ≡ 10
  length-buf' = length-copy_at buf off (take n bs) (omega (arith, length-take n bs)) ∙ full

  front : take (off + n) buf' ≡ take off buf ++ take n bs
  front = take-copy_at buf off (take n bs) (off + n) (omega arith) (omega (arith, length-take n bs))

  small_take :
      length bs ≤ 10 - off
      → take (off + n) buf' ++ take (10 - (off + n)) s ≡ take off buf ++ take (10 - off) (bs ++ s)
  small_take h = rw (
    front,
    take-append_ge bs s (10 - off) (10 - (off + n)) (omega arith),
    take_all n bs (omega arith),
    append_assoc,
  )

  small_drop : length bs ≤ 10 - off → drop (10 - (off + n)) s ≡ drop (10 - off) (bs ++ s)
  small_drop h = sym (drop-append_ge bs s (10 - off) (10 - (off + n)) (omega arith))

  large_take : 10 - off ≤ length bs → buf' ≡ take off buf ++ take (10 - off) (bs ++ s)
  large_take h =
      let e : n ≡ 10 - off = omega arith in
      sym (take_all (off + n) buf' (omega (arith, length-buf')))
      ∙ front
      ∙ rw (e, take-append_le bs s (10 - off) h)

  large_drop : 10 - off ≤ length bs → drop n bs ++ s ≡ drop (10 - off) (bs ++ s)
  large_drop h = let e : n ≡ 10 - off = omega arith in rw (e, drop-append_le bs s (10 - off) h)

  -- What is left of the chunk tells which case it is.
  used_up : drop n bs ≡ [] → length bs ≤ 10 - off
  used_up e = omega (arith, ap length e, length-drop n bs)

  not_used_up : (c : ℕ) (cs : List ℕ) → drop n bs ≡ c ∷ cs → 10 - off ≤ length bs
  not_used_up c cs e = omega (arith, ap length e, length-drop n bs)

-- `off` bytes of the packet have come, and stand at the front of `buf`.
read_loop-Reads :
    (answers : List Read) (off : ℕ) (buf : List ℕ)
    → length buf ≡ 10
    → off ≤ 10
    → Flows answers
    → 10 - off ≤ length (stream answers)
    → Reads
        (take off buf ++ take (10 - off) (stream answers))
        (drop (10 - off) (stream answers))
        (read_loop off buf answers)
unfolding read_loop
read_loop-Reads [] off buf full le f enough =
    let last : 10 ≤ off = omega arith in rw (le→ltb off 10 last) (full_Reads [] off buf full last f)
read_loop-Reads (Read.chunk [] ∷ answers) off buf full le f enough = absurd (f.0 refl)
read_loop-Reads (Read.chunk (b ∷ bs) ∷ answers) off buf full le f enough =
    elim (Bool-cases (ltb off 10)) [
      | inr e ↦
          rw (e, read_loop)
            (full_Reads (Read.chunk (b ∷ bs) ∷ answers) off buf full (ltb→le off 10 e) f)
      | inl e ↦
          let some_read : (min (10 - off) (length (b ∷ bs)) == 0) ≡ false =
            ground (arith, ltb→lt off 10 e) in
          elim (List-cases (drop (taken off (b ∷ bs)) (b ∷ bs))) [
            | inl d ↦
                let h = used_up off buf (b ∷ bs) (stream answers) full le d in
                rw
                  (
                    read_small off buf (b ∷ bs) answers e some_read d,
                    ← small_take off buf (b ∷ bs) (stream answers) full le h,
                    ← small_drop off buf (b ∷ bs) (stream answers) full le h,
                  )
                  (read_loop-Reads answers (off + taken off (b ∷ bs)) (after off buf (b ∷ bs))
                    (length-buf' off buf (b ∷ bs) (stream answers) full le) (omega arith) f.1
                    (omega (arith, length-append (b ∷ bs) (stream answers))))
            | inr (c, cs, d) ↦
                let h = not_used_up off buf (b ∷ bs) (stream answers) full le c cs d in
                rw
                  (
                    read_large off buf (b ∷ bs) answers e some_read c cs d,
                    ← large_take off buf (b ∷ bs) (stream answers) full le h,
                    ← large_drop off buf (b ∷ bs) (stream answers) full le h,
                  )
                  (record { packet = refl; kept = rw d; flows = ((λ q. cc), f.1) })
          ]
    ]
read_loop-Reads (Read.interrupted ∷ answers) off buf full le f enough =
    elim (Bool-cases (ltb off 10)) [
      | inr e ↦
          rw (e, read_loop)
            (full_Reads (Read.interrupted ∷ answers) off buf full (ltb→le off 10 e) f)
      | inl e ↦ rw (e, read_loop) (read_loop-Reads answers off buf full le f enough)
    ]
read_loop-Reads (Read.eof ∷ answers) off buf full le f enough = elim f [ ]
read_loop-Reads (Read.would_block ∷ answers) off buf full le f enough = elim f [ ]
read_loop-Reads (Read.failed e ∷ answers) off buf full le f enough = elim f [ ]

-- If a stream of at least 10 bytes comes in without an error, `read_from` returns the packet that
-- its first 10 bytes make up, and leaves the bytes behind them, in whatever chunks they come and
-- however often the call is interrupted.
pub read_from-Reads :
    (answers : List Read)
    → Flows answers
    → 10 ≤ length (stream answers)
    → Reads (take 10 (stream answers)) (drop 10 (stream answers)) (read_from answers)
unfolding read_from
read_from-Reads answers f enough =
    read_loop-Reads answers 0 (to_bytes (new push)) refl (omega arith) f enough

read_loop-pause :
    (cs rest : List Read) (off : ℕ) (buf : List ℕ)
    → Flows cs
    → off + length (stream cs) < 10
    → read_loop off buf (cs ++ Read.would_block ∷ rest)
      ≡ record { result = some (err would_block); left = rest }
unfolding read_loop
read_loop-pause [] rest off buf f h = rw (lt→ltb off 10 (omega arith), read_loop)
read_loop-pause (Read.chunk [] ∷ cs) rest off buf f h = absurd (f.0 refl)
read_loop-pause (Read.chunk (b ∷ bs) ∷ cs) rest off buf f h =
    let l : length (b ∷ bs) ≤ 10 - off = omega (arith, length-append (b ∷ bs) (stream cs)) in
    rw
      (read_small off buf (b ∷ bs) (cs ++ Read.would_block ∷ rest) (lt→ltb off 10 (omega arith))
        (ground arith) (drop_all (taken off (b ∷ bs)) (b ∷ bs) (omega arith)))
      (read_loop-pause cs rest (off + taken off (b ∷ bs)) (after off buf (b ∷ bs)) f.1
        (omega (arith, length-append (b ∷ bs) (stream cs))))
read_loop-pause (Read.interrupted ∷ cs) rest off buf f h =
    rw (lt→ltb off 10 (omega arith), read_loop) (read_loop-pause cs rest off buf f h)
read_loop-pause (Read.eof ∷ cs) rest off buf f h = elim f [ ]
read_loop-pause (Read.would_block ∷ cs) rest off buf f h = elim f [ ]
read_loop-pause (Read.failed e ∷ cs) rest off buf f h = elim f [ ]

-- If a stream pauses after fewer than 10 bytes, `read_from` reports that the call would block and
-- drops these bytes: if at least 10 more bytes follow, a retry takes its packet from the first 10
-- of them, so that it straddles two packets.
pub partial_packet_lost :
    (cs rest : List Read)
    → Flows cs
    → length (stream cs) < 10
    → Flows rest
    → 10 ≤ length (stream rest)
    → let first = read_from (cs ++ Read.would_block ∷ rest) in
      (first.result ≡ some (err would_block))
      × Reads (take 10 (stream rest)) (drop 10 (stream rest)) (read_from first.left)
unfolding read_from
partial_packet_lost cs rest f short g enough =
    rw (read_loop-pause cs rest 0 (to_bytes (new push)) f (omega arith))
      (refl, read_loop-Reads rest 0 (to_bytes (new push)) refl (omega arith) g enough)
