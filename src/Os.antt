-- ===== src/Os.antt =====
-- What the kernel answers to the program's system calls. The kernel is not part of the program: a
-- model takes the answers that it gets, in order, as a list, and every list is allowed.
use zatch.Common.{ℕ, zero, suc, ◌+◌, ◌≤◌, min, List, [], ◌∷◌, arith}

-- An answer to `write(2)`: `room k` says that the descriptor takes `k` bytes, of which a call uses at
-- most its count; the others are the errors EINTR, EAGAIN (or EWOULDBLOCK) and any other errno.
pub data Write : Type 0 where
  room : ℕ → Write
  interrupted would_block : Write
  failed : ℕ → Write

-- An answer to `read(2)`: `chunk bs` says that the bytes `bs` wait in the descriptor, of which a call
-- takes at most its count and leaves the rest; `eof` is a read of 0 bytes.
pub data Read : Type 0 where
  chunk : List ℕ → Read
  eof : Read
  interrupted would_block : Read
  failed : ℕ → Read

-- How many of the answers let bytes through.
abbrev pub progress : List Write → ℕ
progress [] = 0
progress (Write.room zero ∷ answers) = progress answers
progress (Write.room (suc k) ∷ answers) = suc (progress answers)
progress (_ ∷ answers) = progress answers

-- Calls are at most interrupted, and never fail.
abbrev pub Clean : List Write → Type 0
Clean [] = Unit {0}
Clean (Write.room k ∷ answers) = Clean answers
Clean (Write.interrupted ∷ answers) = Clean answers
Clean (_ ∷ answers) = ⊥

pub progress_room :
    (k : ℕ) (answers : List Write) → progress (Write.room k ∷ answers) ≤ progress answers + min k 1
progress_room zero answers = omega arith
progress_room (suc k) answers = omega arith

-- An answer to `select(2)`.
pub data Select : Type 0 where
  ready interrupted failed : Select
