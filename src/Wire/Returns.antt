-- ===== src/Wire/Returns.antt =====
-- When `read_from` and `write_buf` come back, and how many answers `write_buf` uses up.
use zatch.Common.{
  ℕ, zero, suc, ◌+◌, ◌-◌, ◌≤◌, ◌≡◌, ◌≢◌, inl, inr, min, List, [], ◌∷◌, none, some, length, take,
  copy_at, ltb, ltb→lt, false, ◌==◌, ok, arith, Bool-cases,
}
use zatch.Os.{Read, Write, progress, Clean}
use zatch.Wire.{
  read_loop, read_from, new, push, to_bytes, write_buf_loop, write_buf, Packet, write_loop,
  write_to,
}

-- How many of the answers tell `read` something: bytes, the end, or an error other than EINTR.
abbrev pub replies : List Read → ℕ
replies [] = 0
replies (Read.interrupted ∷ answers) = replies answers
replies (_ ∷ answers) = suc (replies answers)

read_loop-returns :
    (answers : List Read) (off : ℕ) (buf : List ℕ)
    → 10 ≤ off + replies answers
    → (read_loop off buf answers).result ≢ none
unfolding read_loop
read_loop-returns [] off buf h = ground arith
read_loop-returns (Read.chunk bs ∷ answers) off buf h =
    let n = min (10 - off) (length bs) in
    ground (arith, read_loop-returns answers (off + n) (copy_at buf off (take n bs)))
read_loop-returns (Read.interrupted ∷ answers) off buf h =
    ground (arith, read_loop-returns answers off buf h)
read_loop-returns (Read.eof ∷ answers) off buf h = ground arith
read_loop-returns (Read.would_block ∷ answers) off buf h = ground arith
read_loop-returns (Read.failed e ∷ answers) off buf h = ground arith

-- `read_from` comes back once the kernel answered ten times with something other than EINTR.
pub read_from-returns :
    (answers : List Read) → 10 ≤ replies answers → (read_from answers).result ≢ none
unfolding read_from
read_from-returns answers h = read_loop-returns answers 0 (to_bytes (new push)) (omega arith)

write_buf_loop-returns :
    (answers : List Write) (buf : List ℕ) (off : ℕ)
    → length buf ≤ off + progress answers
    → ((write_buf_loop buf off answers).result ≢ none)
      × (progress answers ≤ progress (write_buf_loop buf off answers).left + (length buf - off))
unfolding write_buf_loop
write_buf_loop-returns [] buf off h = (ground arith, ground arith)
write_buf_loop-returns (Write.room zero ∷ answers) buf off h =
    let later = write_buf_loop-returns answers buf (off + min (length buf - off) 0) (omega arith) in
    (ground (arith, later.0), ground (arith, later.1))
write_buf_loop-returns (Write.room (suc k) ∷ answers) buf off h =
    elim (Bool-cases (ltb off (length buf))) [
      | inl e ↦
          let n = min (length buf - off) (suc k) in
          let later =
            write_buf_loop-returns answers buf (off + n)
              (omega (arith, ltb→lt off (length buf) e)) in
          rw (e, write_buf_loop) (later.0, omega (arith, later.1, ltb→lt off (length buf) e))
      | inr e ↦ rw (e, write_buf_loop) ((λ q. cc), omega arith)
    ]
write_buf_loop-returns (Write.interrupted ∷ answers) buf off h =
    let later = write_buf_loop-returns answers buf off h in
    (ground (arith, later.0), ground (arith, later.1))
write_buf_loop-returns (Write.would_block ∷ answers) buf off h = (ground arith, ground arith)
write_buf_loop-returns (Write.failed e ∷ answers) buf off h = (ground arith, ground arith)

-- `write_buf` comes back once the kernel took bytes as often as there are bytes, and uses up no
-- more of these answers than that.
pub write_buf-returns :
    (buf : List ℕ) (answers : List Write)
    → length buf ≤ progress answers
    → ((write_buf buf answers).result ≢ none)
      × (progress answers ≤ progress (write_buf buf answers).left + length buf)
unfolding write_buf
write_buf-returns buf answers h =
    let r = write_buf_loop-returns answers buf 0 (omega arith) in (r.0, omega (arith, r.1))

-- Each answer lets some bytes through, or is EINTR.
abbrev pub Steady : List Write → Type 0
Steady [] = Unit {0}
Steady (Write.room (suc k) ∷ answers) = Steady answers
Steady (Write.interrupted ∷ answers) = Steady answers
Steady _ = ⊥

write_loop-ok :
    (answers : List Write) (bytes : List ℕ) (off : ℕ)
    → Steady answers
    → 10 ≤ off + progress answers
    → (write_loop bytes off answers).result ≡ some (ok tt)
unfolding write_loop
write_loop-ok [] bytes off s h = ground arith
write_loop-ok (Write.room zero ∷ answers) bytes off s h = elim s [ ]
write_loop-ok (Write.room (suc k) ∷ answers) bytes off s h =
    ground (arith, write_loop-ok answers bytes (off + min (10 - off) (suc k)) s)
write_loop-ok (Write.interrupted ∷ answers) bytes off s h =
    ground (arith, write_loop-ok answers bytes off s)
write_loop-ok (Write.would_block ∷ answers) bytes off s h = elim s [ ]
write_loop-ok (Write.failed e ∷ answers) bytes off s h = elim s [ ]

-- `write_to` reports a packet as sent where each write takes something, ten times at least.
pub write_to-ok :
    (p : Packet) (answers : List Write)
    → Steady answers
    → 10 ≤ progress answers
    → (write_to p answers).result ≡ some (ok tt)
unfolding write_to
write_to-ok p answers s h = write_loop-ok answers (to_bytes p) 0 s (omega arith)

write_loop-left :
    (answers : List Write) (bytes : List ℕ) (off : ℕ)
    → Steady answers
    → off ≤ 10
    → Steady (write_loop bytes off answers).left
      × (progress answers ≤ progress (write_loop bytes off answers).left + (10 - off))
unfolding write_loop
write_loop-left [] bytes off s h = (tt, omega arith)
write_loop-left (Write.room zero ∷ answers) bytes off s h = elim s [ ]
write_loop-left (Write.room (suc k) ∷ answers) bytes off s h = elim (Bool-cases (ltb off 10)) [
  | inr e ↦ rw (e, write_loop) (s, omega arith)
  | inl e ↦
      let n = min (10 - off) (suc k) in
      let some_room : (n == 0) ≡ false = ground (arith, ltb→lt off 10 e) in
      let later = write_loop-left answers bytes (off + n) s (omega arith) in
      rw (e, write_loop, some_room) (later.0, omega (arith, later.1, ltb→lt off 10 e))
]
write_loop-left (Write.interrupted ∷ answers) bytes off s h = elim (Bool-cases (ltb off 10)) [
  | inr e ↦ rw (e, write_loop) (s, omega arith)
  | inl e ↦ rw (e, write_loop) (write_loop-left answers bytes off s h)
]
write_loop-left (Write.would_block ∷ answers) bytes off s h = elim s [ ]
write_loop-left (Write.failed e ∷ answers) bytes off s h = elim s [ ]

-- It uses up ten of these answers at most.
pub write_to-left :
    (p : Packet) (answers : List Write)
    → Steady answers
    → Steady (write_to p answers).left
      × (progress answers ≤ progress (write_to p answers).left + 10)
unfolding write_to
write_to-left p answers s =
    let r = write_loop-left answers (to_bytes p) 0 s (omega arith) in (r.0, omega (arith, r.1))

write_buf_loop-Clean :
    (answers : List Write) (buf : List ℕ) (off : ℕ)
    → Clean answers
    → Clean (write_buf_loop buf off answers).left
unfolding write_buf_loop
write_buf_loop-Clean [] buf off c = tt
write_buf_loop-Clean (Write.room k ∷ answers) buf off c = elim (Bool-cases (ltb off (length buf))) [
  | inl e ↦
      rw (e, write_buf_loop) (write_buf_loop-Clean answers buf (off + min (length buf - off) k) c)
  | inr e ↦ rw (e, write_buf_loop) c
]
write_buf_loop-Clean (Write.interrupted ∷ answers) buf off c =
    elim (Bool-cases (ltb off (length buf))) [
      | inl e ↦ rw (e, write_buf_loop) (write_buf_loop-Clean answers buf off c)
      | inr e ↦ rw (e, write_buf_loop) c
    ]
write_buf_loop-Clean (Write.would_block ∷ answers) buf off c = elim c [ ]
write_buf_loop-Clean (Write.failed e ∷ answers) buf off c = elim c [ ]

pub write_buf-Clean :
    (buf : List ℕ) (answers : List Write) → Clean answers → Clean (write_buf buf answers).left
unfolding write_buf
write_buf-Clean buf answers c = write_buf_loop-Clean answers buf 0 c
