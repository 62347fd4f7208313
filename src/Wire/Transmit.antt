-- ===== src/Wire/Transmit.antt =====
-- `write_to` and `write_buf`: what goes out, in any number of pieces, and when the calls return.
use zatch.Common.{
  ℕ, zero, suc, ◌+◌, ◌-◌, ◌≤◌, ◌≡◌, ◌≢◌, inl, inr, ◌++◌, min, List, [], ◌∷◌, Option, none, some,
  length, take, drop, ltb, ltb→le, le→ltb, ◌==◌, ok, refl, sym, ap, ◌∙◌, arith, Bool-cases,
  take-append_le, drop-append_ge, take_all, drop_all, length-take, length-drop, length-append,
  take-take-drop, take-append-drop, drop-drop,
}
use zatch.Os.{Read, Write, progress, progress_room, Clean}
use zatch.Wire.Receive.{stream, Flows, read_from-Reads}
use zatch.Wire.{
  Packet, to_bytes, of_bytes, read_from, Sent, write_loop, write_to, write_buf_loop, write_buf,
}
use zatch.Wire.Codec.{IsPacket, length-to_bytes, of_bytes-to_bytes}

pub record Sends {A : Type 0} (bytes : List ℕ) (s : Sent A) : Type 0 where
  pub prefix : s.out ≡ take (length s.out) bytes
  pub short : length s.out ≤ length bytes

-- A piece of `n` bytes, and then a part of what is behind it.
Sends-piece :
    {A : Type 0} (bytes : List ℕ) (off n : ℕ) (s : Sent A)
    → off + n ≤ length bytes
    → Sends (drop (off + n) bytes) s
    → Sends (drop off bytes) (record s { out = take n (drop off bytes) ++ s.out })
Sends-piece bytes off n s h p =
    let l : length (take n (drop off bytes)) ≡ n =
      omega (arith, length-take n (drop off bytes), length-drop off bytes) in
    let later : drop n (drop off bytes) ≡ drop (off + n) bytes =
      drop-drop n off (off + n) bytes refl in
    record {
      prefix =
          ap (◌++◌ (take n (drop off bytes))) (p.prefix ∙ ap (take (length s.out)) (sym later))
          ∙ take-take-drop (length s.out) n _ (drop off bytes)
              (omega (arith, length-append (take n (drop off bytes)) s.out));
      short = omega (
        arith,
        length-append (take n (drop off bytes)) s.out,
        length-drop off bytes,
        length-drop (off + n) bytes,
        p.short,
      );
    }

Sends-none :
    {A : Type 0} (bytes : List ℕ) (r : Option A) (left : List Write)
    → Sends bytes (record { result = r; out = []; left = left })
Sends-none bytes r left = record { prefix = refl; short = omega arith }

write_loop-Sends :
    (answers : List Write) (bytes : List ℕ) (off : ℕ)
    → length bytes ≡ 10
    → off ≤ 10
    → Sends (drop off bytes) (write_loop bytes off answers)
      × ((write_loop bytes off answers).result ≡ some (ok tt)
          → length (write_loop bytes off answers).out ≡ 10 - off)
unfolding write_loop
write_loop-Sends [] bytes off full le = elim (Bool-cases (ltb off 10)) [
  | inl e ↦ rw e (Sends-none (drop off bytes) _ _, λ q. cc)
  | inr e ↦ rw e (Sends-none (drop off bytes) _ _, λ q. omega (arith, ltb→le off 10 e))
]
write_loop-Sends (Write.room space ∷ answers) bytes off full le = elim (Bool-cases (ltb off 10)) [
  | inr e ↦
      rw (e, write_loop) (Sends-none (drop off bytes) _ _, λ q. omega (arith, ltb→le off 10 e))
  | inl e ↦
      let n = min (10 - off) space in
      let later = write_loop-Sends answers bytes (off + n) full (omega arith) in
      elim (Bool-cases (n == 0)) [
        | inl z ↦ rw (e, write_loop, z) (Sends-none (drop off bytes) _ _, λ q. cc)
        | inr z ↦
            rw (e, write_loop, z)
              (
                Sends-piece bytes off n (write_loop bytes (off + n) answers) (omega arith) later.0,
                λ q. omega (
                  arith,
                  later.1 q,
                  length-append (take n (drop off bytes)) (write_loop bytes (off + n) answers).out,
                  length-take n (drop off bytes),
                  length-drop off bytes,
                ),
              )
      ]
]
write_loop-Sends (Write.interrupted ∷ answers) bytes off full le = elim (Bool-cases (ltb off 10)) [
  | inl e ↦ rw (e, write_loop) (write_loop-Sends answers bytes off full le)
  | inr e ↦
      rw (e, write_loop) (Sends-none (drop off bytes) _ _, λ q. omega (arith, ltb→le off 10 e))
]
write_loop-Sends (Write.would_block ∷ answers) bytes off full le = elim (Bool-cases (ltb off 10)) [
  | inl e ↦ rw (e, write_loop) (Sends-none (drop off bytes) _ _, λ q. cc)
  | inr e ↦
      rw (e, write_loop) (Sends-none (drop off bytes) _ _, λ q. omega (arith, ltb→le off 10 e))
]
write_loop-Sends (Write.failed k ∷ answers) bytes off full le = elim (Bool-cases (ltb off 10)) [
  | inl e ↦ rw (e, write_loop) (Sends-none (drop off bytes) _ _, λ q. cc)
  | inr e ↦
      rw (e, write_loop) (Sends-none (drop off bytes) _ _, λ q. omega (arith, ltb→le off 10 e))
]

-- Whatever the kernel answers, `write_to` sends a prefix of the bytes of a packet with 8 bytes of
-- data.
pub write_to-Sends :
    (p : Packet) (answers : List Write) → IsPacket p → Sends (to_bytes p) (write_to p answers)
unfolding write_to
write_to-Sends p answers h =
    (write_loop-Sends answers (to_bytes p) 0 (length-to_bytes p h) (omega arith)).0

pub write_to-all :
    (p : Packet) (answers : List Write)
    → IsPacket p
    → (write_to p answers).result ≡ some (ok tt)
    → (write_to p answers).out ≡ to_bytes p
unfolding write_to
write_to-all p answers h e =
    let s = write_loop-Sends answers (to_bytes p) 0 (length-to_bytes p h) (omega arith) in
    s.0.prefix
    ∙ take_all (length (write_loop (to_bytes p) 0 answers).out) (to_bytes p)
        (omega (arith, s.1 e, length-to_bytes p h))

-- A packet with 8 bytes of data that `write_to` reports as sent is read back by `read_from` as it
-- was, if the bytes come in without an error, in any pieces, and what follows it in the stream is
-- left.
pub read_from-write_to :
    (p : Packet) (answers : List Write) (incoming : List Read) (more : List ℕ)
    → IsPacket p
    → (write_to p answers).result ≡ some (ok tt)
    → Flows incoming
    → stream incoming ≡ (write_to p answers).out ++ more
    → ((read_from incoming).result ≡ some (ok p)) × (stream (read_from incoming).left ≡ more)
read_from-write_to p answers incoming more h e f s =
    let whole : stream incoming ≡ to_bytes p ++ more =
      s ∙ ap (λ bs. bs ++ more) (write_to-all p answers h e) in
    let l : length (to_bytes p) ≡ 10 = length-to_bytes p h in
    let r =
      read_from-Reads incoming f
        (omega (arith, ap length whole, length-append (to_bytes p) more)) in
    (
      r.packet
          ∙ ap (λ bs. some (ok (of_bytes bs)))
              (ap (take 10) whole
                ∙ take-append_le (to_bytes p) more 10 (omega arith)
                ∙ take_all 10 (to_bytes p) (omega arith))
          ∙ ap (λ q. some (ok q)) (of_bytes-to_bytes p),
      r.kept ∙ ap (drop 10) whole ∙ drop-append_ge (to_bytes p) more 10 0 (omega arith),
    )

write_loop-returns :
    (answers : List Write) (bytes : List ℕ) (off : ℕ)
    → 10 - off ≤ progress answers
    → (write_loop bytes off answers).result ≢ none
unfolding write_loop
write_loop-returns [] bytes off h = ground arith
write_loop-returns (Write.room zero ∷ answers) bytes off h = ground arith
write_loop-returns (Write.room (suc k) ∷ answers) bytes off h =
    ground (arith, write_loop-returns answers bytes (off + min (10 - off) (suc k)))
write_loop-returns (Write.interrupted ∷ answers) bytes off h =
    ground (arith, write_loop-returns answers bytes off)
write_loop-returns (Write.would_block ∷ answers) bytes off h = ground arith
write_loop-returns (Write.failed e ∷ answers) bytes off h = ground arith

-- `write_to` returns once the kernel took bytes ten times, however few at a time.
pub write_to-returns :
    (p : Packet) (answers : List Write) → 10 ≤ progress answers → (write_to p answers).result ≢ none
unfolding write_to
write_to-returns p answers h = write_loop-returns answers (to_bytes p) 0 h

write_buf_loop-all :
    (answers : List Write) (buf : List ℕ) (off : ℕ)
    → Clean answers
    → length buf - off ≤ progress answers
    → off ≤ length buf
    → ((write_buf_loop buf off answers).result ≡ some tt)
      × ((write_buf_loop buf off answers).out ≡ drop off buf)
unfolding write_buf_loop
write_buf_loop-all [] buf off c h le =
    (rw (le→ltb off (length buf) (omega arith)), sym (drop_all off buf (omega arith)))
write_buf_loop-all (Write.room k ∷ answers) buf off c h le =
    elim (Bool-cases (ltb off (length buf))) [
      | inl e ↦
          let n = min (length buf - off) k in
          let later =
            write_buf_loop-all answers buf (off + n) c (omega (arith, progress_room k answers))
              (omega arith) in
          rw (e, write_buf_loop)
            (
              later.0,
              ap (◌++◌ (take n (drop off buf))) (later.1 ∙ sym (drop-drop n off (off + n) buf refl))
                  ∙ take-append-drop n (drop off buf),
            )
      | inr e ↦ rw (e, write_buf_loop) (refl, sym (drop_all off buf (ltb→le off (length buf) e)))
    ]
write_buf_loop-all (Write.interrupted ∷ answers) buf off c h le =
    elim (Bool-cases (ltb off (length buf))) [
      | inl e ↦ rw (e, write_buf_loop) (write_buf_loop-all answers buf off c h le)
      | inr e ↦ rw (e, write_buf_loop) (refl, sym (drop_all off buf (ltb→le off (length buf) e)))
    ]
write_buf_loop-all (Write.would_block ∷ answers) buf off c h le = elim c [ ]
write_buf_loop-all (Write.failed e ∷ answers) buf off c h le = elim c [ ]

-- `write_buf` writes all of the buffer, and returns, if the kernel reports no error other than EINTR
-- and takes bytes often enough.
pub write_buf-all :
    (buf : List ℕ) (answers : List Write)
    → Clean answers
    → length buf ≤ progress answers
    → ((write_buf buf answers).result ≡ some tt) × ((write_buf buf answers).out ≡ buf)
unfolding write_buf
write_buf-all buf answers c h = write_buf_loop-all answers buf 0 c (omega arith) (omega arith)

-- The bytes of one packet, and others behind them.
pub first_packet :
    (p : Packet) (incoming : List Read) (more : List ℕ)
    → length (to_bytes p) ≡ 10
    → Flows incoming
    → stream incoming ≡ to_bytes p ++ more
    → ((read_from incoming).result ≡ some (ok p))
      × (stream (read_from incoming).left ≡ more)
      × Flows (read_from incoming).left
first_packet p incoming more l f s =
    let r =
      read_from-Reads incoming f (omega (arith, ap length s, length-append (to_bytes p) more)) in
    (
      r.packet
          ∙ ap (λ bs. some (ok (of_bytes bs)))
              (ap (take 10) s
                ∙ take-append_le (to_bytes p) more 10 (omega arith)
                ∙ take_all 10 (to_bytes p) (omega arith))
          ∙ ap (λ q. some (ok q)) (of_bytes-to_bytes p),
      r.kept ∙ ap (drop 10) s ∙ drop-append_ge (to_bytes p) more 10 0 (omega arith),
      r.flows,
    )
