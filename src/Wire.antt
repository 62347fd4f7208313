-- ===== src/Wire.antt =====
-- src/protocol.rs: the 10-byte packets between clients and the daemon, and their transfer.
-- A byte is a number below 256. `libc` constants are those of Linux.
pub mod Codec
pub mod Receive
pub mod Transmit
pub mod Returns
pub mod Winsize
pub mod Methods
mod Tests
use zatch.Common.{
  ℕ, ◌+◌, ◌-◌, min, List, [], ◌∷◌, ◌++◌, Option, none, some, Bool, true, false, length, take, drop,
  get_or, replicate, copy_at, ltb, ◌==◌, if◌then◌else◌, Result, ok, err,
}
use zatch.Os.{Read, Write}

pub data MsgType : Type 0 where
  push attach detach winch redraw kill force_detach info : MsgType

-- `t as u8`
unfoldable pub as_u8 : MsgType → ℕ
as_u8 push = 0
as_u8 attach = 1
as_u8 detach = 2
as_u8 winch = 3
as_u8 redraw = 4
as_u8 kill = 5
as_u8 force_detach = 6
as_u8 info = 7

unfoldable pub from_u8 : ℕ → Option MsgType
from_u8 v =
    if v == 0
    then some push
    else if v == 1
    then some attach
    else if v == 2
    then some detach
    else if v == 3
    then some winch
    else if v == 4
    then some redraw
    else if v == 5
    then some kill
    else if v == 6
    then some force_detach
    else if v == 7
    then some info
    else none

-- The field `data` holds 8 bytes (`IsPacket` of Codec).
pub record Packet : Type 0 where
  pub msg_type : ℕ
  pub len : ℕ
  pub payload : List ℕ

pub data ProtocolError : Type 0 where
  eof would_block : ProtocolError
  io : ℕ → ProtocolError

-- EAGAIN is 11.
unfoldable pub as_errno : ProtocolError → ℕ
as_errno eof = 0
as_errno would_block = 11
as_errno (io e) = e

unfoldable pub new : MsgType → Packet
unfolding as_u8
new t = record { msg_type = as_u8 t; len = 0; payload = replicate 8 0 }

unfoldable pub encode : MsgType → ℕ → Packet
unfolding as_u8
encode t n = record { msg_type = as_u8 t; len = n; payload = replicate 8 0 }

-- `#[repr(C, packed)]`: the memory of a packet, and the packet in a memory of 10 bytes.
abbrev pub packet_size : ℕ
packet_size = 10

unfoldable pub to_bytes : Packet → List ℕ
to_bytes p = p.msg_type ∷ p.len ∷ p.payload

unfoldable pub of_bytes : List ℕ → Packet
of_bytes bs = record { msg_type = get_or bs 0 0; len = get_or bs 1 0; payload = drop 2 bs }

-- A call's result (`none` while the kernel has not answered often enough for it to return), and the
-- answers that it leaves.
pub record Received : Type 0 where
  pub result : Option (Result Packet ProtocolError)
  pub left : List Read

-- The loop of `read_from`: `buf` is the memory of `pkt`. A chunk that one `read` does not use up has
-- filled the packet, so that the loop ends there.
read_loop : ℕ → List ℕ → List Read → Received
unfolding of_bytes
read_loop off buf [] = record {
  result = if ltb off packet_size then none else some (ok (of_bytes buf));
  left = [];
}
read_loop off buf (a ∷ answers) = elim (ltb off packet_size) [
  | false ↦ record { result = some (ok (of_bytes buf)); left = a ∷ answers }
  | true ↦ elim a [
    | Read.chunk bs ↦
        let n = min (packet_size - off) (length bs) in
        let buf' = copy_at buf off (take n bs) in
        let rest = read_loop (off + n) buf' answers in
        let more : Received = elim (drop n bs) [
          | [] ↦ rest
          | c ∷ cs ↦ record {
            result = some (ok (of_bytes buf'));
            left = Read.chunk (c ∷ cs) ∷ answers;
          }
        ] in
        if n == 0 then record { result = some (err eof); left = answers } else more
    | Read.eof ↦ record { result = some (err eof); left = answers }
    | Read.interrupted ↦ read_loop off buf answers
    | Read.would_block ↦ record { result = some (err would_block); left = answers }
    | Read.failed e ↦ record { result = some (err (io e)); left = answers }
  ]
]

unfoldable pub read_from : List Read → Received
unfolding read_loop new to_bytes
read_from answers = read_loop 0 (to_bytes (new push)) answers

-- What a writing call leaves: its result, the bytes that went out, the answers that are left.
pub record Sent (A : Type 0) : Type 0 where
  pub result : Option A
  pub out : List ℕ
  pub left : List Write

write_loop : List ℕ → ℕ → List Write → Sent (Result (Unit {0}) ProtocolError)
write_loop bytes off [] = record {
  result = if ltb off packet_size then none else some (ok tt);
  out = [];
  left = [];
}
write_loop bytes off (a ∷ answers) = elim (ltb off packet_size) [
  | false ↦ record { result = some (ok tt); out = []; left = a ∷ answers }
  | true ↦ elim a [
    | Write.room space ↦
        let n = min (packet_size - off) space in
        let rest = write_loop bytes (off + n) answers in
        if n == 0
        then record { result = some (err eof); out = []; left = answers }
        else record rest { out = take n (drop off bytes) ++ rest.out }
    | Write.interrupted ↦ write_loop bytes off answers
    | Write.would_block ↦ record { result = some (err would_block); out = []; left = answers }
    | Write.failed e ↦ record { result = some (err (io e)); out = []; left = answers }
  ]
]

unfoldable pub write_to : Packet → List Write → Sent (Result (Unit {0}) ProtocolError)
unfolding write_loop to_bytes
write_to p answers = write_loop (to_bytes p) 0 answers

-- The loop of `write_buf`: a write of 0 bytes is made again.
write_buf_loop : List ℕ → ℕ → List Write → Sent (Unit {0})
write_buf_loop buf off [] = record {
  result = if ltb off (length buf) then none else some tt;
  out = [];
  left = [];
}
write_buf_loop buf off (a ∷ answers) = elim (ltb off (length buf)) [
  | false ↦ record { result = some tt; out = []; left = a ∷ answers }
  | true ↦ elim a [
    | Write.room space ↦
        let n = min (length buf - off) space in
        let rest = write_buf_loop buf (off + n) answers in
        record rest { out = take n (drop off buf) ++ rest.out }
    | Write.interrupted ↦ write_buf_loop buf off answers
    | Write.would_block ↦ record { result = some tt; out = []; left = answers }
    | Write.failed e ↦ record { result = some tt; out = []; left = answers }
  ]
]

unfoldable pub write_buf : List ℕ → List Write → Sent (Unit {0})
unfolding write_buf_loop
write_buf buf answers = write_buf_loop buf 0 answers
