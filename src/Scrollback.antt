-- ===== src/Scrollback.antt =====
-- src/scrollback.rs and `Client` of src/client.rs: the ring buffer of recent output.
-- SCROLLBACK_SIZE is the argument `size`, so that small rings can be run; `scrollback_size` is its
-- value. It is a power of two, so `x & (SCROLLBACK_SIZE - 1)` is written `x % size`.
pub mod Window
pub mod Append
pub mod Replay
pub mod Progress
pub mod Whole
mod Tests
use zatch.Common.{
  ℕ, ◌+◌, ◌-◌, ◌*◌, ◌%◌, min, List, [], ◌∷◌, ◌++◌, Bool, true, false, length, take, drop, replicate,
  copy_at, ltb, leb, ◌==◌, if◌then◌else◌,
}
use zatch.Os.{Write, room, interrupted, would_block, failed}

abbrev pub scrollback_size : ℕ
scrollback_size = 128 * 1024

pub record Scrollback : Type 0 where
  pub buf : List ℕ
  pub head : ℕ
  pub len : ℕ

unfoldable pub new : ℕ → Scrollback
new size = record { buf = replicate size 0; head = 0; len = 0 }

-- The one or two `copy_from_slice` calls, from the write position `wp`.
write_ring : ℕ → List ℕ → ℕ → List ℕ → List ℕ
write_ring size buf wp bytes =
    let n1 = min (size - wp) (length bytes) in
    let buf1 = copy_at buf wp (take n1 bytes) in
    if ltb n1 (length bytes) then copy_at buf1 0 (drop n1 bytes) else buf1

-- The body of `append` once `data` is cut to at most `size` bytes.
store : ℕ → Scrollback → List ℕ → Scrollback
unfolding write_ring
store size sb bytes =
    let wp = (sb.head + sb.len) % size in
    let buf = write_ring size sb.buf wp bytes in
    let new_total = sb.len + length bytes in
    if leb new_total size
    then record { buf = buf; head = sb.head; len = new_total }
    else record { buf = buf; head = (sb.head + new_total - size) % size; len = size }

unfoldable pub append : ℕ → Scrollback → List ℕ → Scrollback
unfolding store
append size sb bytes =
    let cut = if leb size (length bytes) then drop (length bytes - size) bytes else bytes in
    if length bytes == 0 then sb else store size sb cut

pub record ReplayState : Type 0 where
  pub head : ℕ
  pub remaining : ℕ

-- What a call of `drain` leaves: its result, with the state, the bytes that the client was sent and
-- the kernel's answers that are left. `waiting` is a call that has not returned yet.
pub data DrainResult : Type 0 where
  returned : Bool → DrainResult
  waiting : DrainResult

pub record Drained : Type 0 where
  pub result : DrainResult
  pub state : ReplayState
  pub sent : List ℕ
  pub left : List Write

-- `write(2)` of `n` bytes moves as many as there is room for.
abbrev moved : ℕ → ℕ → ℕ
moved n space = min n space

unfoldable pub drain : ℕ → List ℕ → ReplayState → List Write → Drained
drain size buf rs [] =
    if ltb 0 rs.remaining
    then record { result = waiting; state = rs; sent = []; left = [] }
    else record { result = returned true; state = rs; sent = []; left = [] }
drain size buf rs (a ∷ answers) = elim (ltb 0 rs.remaining) [
  | false ↦ record { result = returned true; state = rs; sent = []; left = a ∷ answers }
  | true ↦ elim a [
    | interrupted ↦ drain size buf rs answers
    | would_block ↦ record { result = returned true; state = rs; sent = []; left = answers }
    | failed e ↦ record { result = returned false; state = rs; sent = []; left = answers }
    | room space ↦
        let n = min (size - rs.head) rs.remaining in
        let ret = moved n space in
        let rest =
          drain size buf (record { head = (rs.head + ret) % size; remaining = rs.remaining - ret })
            answers in
        record rest { sent = take ret (drop rs.head buf) ++ rest.sent }
  ]
]
