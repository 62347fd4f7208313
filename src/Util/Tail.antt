-- ===== src/Util/Tail.antt =====
-- `find_tail_start` of src/util.rs: where the last lines of a file start.
use zatch.Common.{
  ℕ, zero, suc, ◌+◌, ◌-◌, ◌≡◌, ◌≢◌, ◌<◌, ◌≤◌, List, [], ◌∷◌, Option, none, some, true, false, ◌&&◌,
  ◌⊎◌, inl, inr, All, min, length, take, drop, get_or, get_or-take, get_or-drop, length-take,
  length-drop, leb, ltb, ltb→lt, ltb→le, ==_iff, ◌==◌, if◌then◌else◌, Bool-cases, refl, arith, ap,
  ◌∙◌, drop_all,
}

-- What the scan of a chunk gives: the offset, if there are enough lines, and the line ends seen.
pub record Scan : Type 0 where
  pub found : Option ℕ
  pub count : ℕ

-- `for i in (0..n).rev()` over a chunk that stands at `pos` of the file.
unfoldable pub scan_chunk : ℕ → ℕ → List ℕ → ℕ → ℕ → Scan
scan_chunk nlines pos buf zero count = record { found = none; count = count }
scan_chunk nlines pos buf (suc i) count =
    let more = scan_chunk nlines pos buf i (count + 1) in
    let same = scan_chunk nlines pos buf i count in
    if get_or buf i 0 == 10
    then (if ltb nlines (count + 1)
        then record { found = some (pos + i + 1); count = count + 1 }
        else more)
    else same

-- The rest of a round of the loop, once a chunk is read; `later` are the rounds behind it.
unfoldable pub tail_round : ℕ → ℕ → List ℕ → ℕ → (ℕ → Option ℕ) → Option ℕ
unfolding scan_chunk
tail_round nlines pos buf count later =
    let s = scan_chunk nlines pos buf (length buf) count in
    if length buf == 0
    then some 0
    else elim s.found [ none ↦ later s.count | some start ↦ some start ]

-- The `while` loop. BUFSIZE is the argument `bufsize`; each read takes an answer, the number of bytes
-- that the kernel is ready to give, where an error counts as 0. No result: a read has not come back.
-- `nlines` is not negative.
unfoldable pub tail_loop : ℕ → List ℕ → ℕ → ℕ → ℕ → List ℕ → Option ℕ
tail_loop bufsize file nlines pos count [] = if ltb 0 pos && leb count nlines then none else some 0
tail_loop bufsize file nlines pos count (answer ∷ answers) =
    let chunk = if ltb bufsize pos then bufsize else pos in
    let buf = take (min chunk answer) (drop (pos - chunk) file) in
    let later : ℕ → Option ℕ = λ n. tail_loop bufsize file nlines (pos - chunk) n answers in
    if ltb 0 pos && leb count nlines
    then tail_round nlines (pos - chunk) buf count later
    else some 0

unfoldable pub find_tail_start : ℕ → List ℕ → ℕ → ℕ → List ℕ → Option ℕ
find_tail_start bufsize file size nlines answers = tail_loop bufsize file nlines size 0 answers

-- The line ends of a text.
abbrev pub line_ends : List ℕ → ℕ
line_ends [] = 0
line_ends (c ∷ s) = (if c == 10 then 1 else 0) + line_ends s

-- Behind offset `start` there are exactly `nlines` line ends, and one stands right before it; or the
-- file has no more than `nlines` of them, and the offset is its start.
abbrev pub IsTailStart : List ℕ → ℕ → ℕ → Type 0
IsTailStart file nlines start =
    ((line_ends file ≤ nlines) × (start ≡ 0))
    ⊎ ((line_ends (drop start file) ≡ nlines) × (q : ℕ) × (start ≡ q + 1) × (get_or file q 0 ≡ 10))

line_ends-drop :
    (file : List ℕ) (p : ℕ)
    → p < length file
    → line_ends (drop p file)
      ≡ (if get_or file p 0 == 10 then 1 else 0) + line_ends (drop (suc p) file)
line_ends-drop [] p h = absurd (omega arith)
line_ends-drop (c ∷ s) zero h = refl
line_ends-drop (c ∷ s) (suc p) h = line_ends-drop s p (omega arith)

counted_at :
    (file : List ℕ) (count p q : ℕ)
    → p ≡ q
    → count ≡ line_ends (drop p file)
    → count ≡ line_ends (drop q file)
counted_at file count p q same e = rw (← same) e

-- What a scan down to `pos` has found, if the line ends behind its start were counted right.
abbrev Scanned : List ℕ → ℕ → ℕ → Scan → Type 0
Scanned file nlines pos s =
    ((s.found ≡ none) × (s.count ≡ line_ends (drop pos file)) × (s.count ≤ nlines))
    ⊎ ((start : ℕ) × (s.found ≡ some start) × IsTailStart file nlines start)

module _ (file : List ℕ) (nlines pos : ℕ) (buf : List ℕ) (inside : pos + length buf ≤ length file)
    (same : (i : ℕ) → i < length buf → get_or buf i 0 ≡ get_or file (pos + i) 0) where
  scan_chunk-Scanned :
      (i count : ℕ)
      → i ≤ length buf
      → count ≡ line_ends (drop (pos + i) file)
      → count ≤ nlines
      → Scanned file nlines pos (scan_chunk nlines pos buf i count)
  unfolding scan_chunk
  scan_chunk-Scanned zero count h e le =
      inl (refl, counted_at file count (pos + 0) pos (omega arith) e, le)
  scan_chunk-Scanned (suc i) count h e le =
      let byte = same i (omega arith) in
      let step = line_ends-drop file (pos + i) (omega arith) in
      let before : count ≡ line_ends (drop (suc (pos + i)) file) =
        counted_at file count (pos + suc i) (suc (pos + i)) (omega arith) e in
      let start : pos + i + 1 ≡ suc (pos + i) = omega arith in
      elim (Bool-cases (get_or file (pos + i) 0 == 10)) [
        | inl c ↦
            let more : count + 1 ≡ line_ends (drop (pos + i) file) =
              rw (step, c) (omega (arith, before)) in
            elim (Bool-cases (ltb nlines (count + 1))) [
              | inl f ↦
                  let lines : line_ends (drop (pos + i + 1) file) ≡ nlines =
                    rw (start, ← before) (omega (arith, ltb→lt nlines (count + 1) f, le)) in
                  rw (byte, c, f)
                    (inr (pos + i + 1, refl, inr (lines, pos + i, refl, (==_iff _ 10).0 c)))
              | inr f ↦
                  rw (byte, c, f)
                    (scan_chunk-Scanned i (count + 1) (omega arith) more
                      (ltb→le nlines (count + 1) f))
            ]
        | inr c ↦
            let still : count ≡ line_ends (drop (pos + i) file) =
              rw (step, c) (omega (arith, before)) in
            rw (byte, c) (scan_chunk-Scanned i count (omega arith) still le)
      ]

abbrev pub Finds : List ℕ → ℕ → Option ℕ → Type 0
Finds file nlines o = (start : ℕ) × (o ≡ some start) × IsTailStart file nlines start

tail_round-Finds :
    (file : List ℕ) (nlines pos n : ℕ) (buf : List ℕ) (count : ℕ) (later : ℕ → Option ℕ)
    → buf ≡ take n (drop pos file)
    → n ≢ 0
    → pos + n ≤ length file
    → count ≡ line_ends (drop (pos + n) file)
    → count ≤ nlines
    → ((k : ℕ) → k ≡ line_ends (drop pos file) → k ≤ nlines → Finds file nlines (later k))
    → Finds file nlines (tail_round nlines pos buf count later)
unfolding tail_round
tail_round-Finds file nlines pos n buf count later read some_read inside counted few next =
    let size : length buf ≡ n =
      ap length read ∙ omega (arith, length-take n (drop pos file), length-drop pos file) in
    let go_on : (length buf == 0) ≡ false = ground arith in
    rw go_on (
      by_scan (scan_chunk nlines pos buf (length buf) count) (
        scan_chunk-Scanned file nlines pos buf (omega arith)
          (λ i h.
            ap (λ t. get_or t i 0) read
            ∙ get_or-take n (drop pos file) i 0 (omega arith)
            ∙ get_or-drop pos file i 0)
          (length buf) count (omega arith)
          (counted_at file count (pos + n) (pos + length buf) (omega arith) counted) few))
  where
    by_scan :
        (s : Scan)
        → Scanned file nlines pos s
        → Finds file nlines (elim s.found [ none ↦ later s.count | some start ↦ some start ])
    by_scan s (inl (none_found, c, l)) = rw none_found (next s.count c l)
    by_scan s (inr (start, found, right)) = rw found (start, refl, right)

module _ (bufsize : ℕ) (file : List ℕ) (nlines : ℕ) (some_room : bufsize ≢ 0) where
  tail_loop-Finds :
      (answers : List ℕ) (pos count : ℕ)
      → pos ≤ length file
      → count ≡ line_ends (drop pos file)
      → count ≤ nlines
      → pos ≤ length answers
      → All (λ k. bufsize ≤ k) answers
      → Finds file nlines (tail_loop bufsize file nlines pos count answers)
  unfolding tail_loop
  tail_loop-Finds answers zero count inside e le enough full = at_start answers
    where
      at_start : (left : List ℕ) → Finds file nlines (tail_loop bufsize file nlines 0 count left)
      at_start [] = (0, refl, inl (omega (arith, e), refl))
      at_start (a ∷ left) = (0, refl, inl (omega (arith, e), refl))
  tail_loop-Finds [] (suc p) count inside e le enough full = absurd (omega arith)
  tail_loop-Finds (answer ∷ answers) (suc p) count inside e le enough full =
      let pos = suc p in
      let chunk = if ltb bufsize pos then bufsize else pos in
      let chunk_le : chunk ≤ pos = ground arith in
      let chunk_lt : chunk ≤ answer = ground (arith, full.0) in
      let chunk_some : chunk ≢ 0 = ground arith in
      let asked : min chunk answer ≡ chunk = omega arith in
      let more : (ltb 0 pos && leb count nlines) ≡ true = ground arith in
      rw more (
        tail_round-Finds file nlines (pos - chunk) chunk
          (take (min chunk answer) (drop (pos - chunk) file)) count
          (λ n. tail_loop bufsize file nlines (pos - chunk) n answers)
          (ap (λ t. take t (drop (pos - chunk) file)) asked) chunk_some (omega arith)
          (counted_at file count pos (pos - chunk + chunk) (omega arith) e) le
          (λ n c l. tail_loop-Finds answers (pos - chunk) n (omega arith) c l (omega arith) full.1))

-- If each read fills the buffer, and the buffer is not empty, `find_tail_start` finds the start of
-- the last lines, whatever the sizes of the file and of the buffer: behind the offset there are
-- exactly `nlines` line ends and one stands right before it, or the file has at most `nlines` of
-- them and the offset is 0.
pub find_tail_start-Finds :
    (bufsize : ℕ) (file : List ℕ) (nlines : ℕ) (answers : List ℕ)
    → bufsize ≢ 0
    → length file ≤ length answers
    → All (λ k. bufsize ≤ k) answers
    → Finds file nlines (find_tail_start bufsize file (length file) nlines answers)
unfolding find_tail_start
find_tail_start-Finds bufsize file nlines answers some_room enough full =
    let none_yet : drop (length file) file ≡ [] = drop_all (length file) file (omega arith) in
    tail_loop-Finds bufsize file nlines some_room answers (length file) 0 (omega arith)
      (rw none_yet refl) (omega arith) enough full
