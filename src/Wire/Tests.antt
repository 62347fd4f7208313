-- ===== src/Wire/Tests.antt =====
-- The theorems on the protocol at concrete packets and streams.
use zatch.Common.{◌≡◌, List, [], ◌∷◌, ◌++◌, some, ok, err, take, drop, refl, arith}
use zatch.Os.{Read, Write, room, interrupted}
use zatch.Wire.{Packet, would_block, to_bytes, read_from, write_to}
use zatch.Wire.Receive.{stream, Flows, Reads, read_from-Reads, partial_packet_lost}
use zatch.Wire.Transmit.{read_from-write_to}

abbrev typed : Packet
typed = record { msg_type = 0; len = 2; payload = 104 ∷ 105 ∷ 0 ∷ 0 ∷ 0 ∷ 0 ∷ 0 ∷ 0 ∷ [] }

abbrev by_two : List Write
by_two = room 2 ∷ interrupted ∷ room 2 ∷ room 2 ∷ room 2 ∷ room 2 ∷ []

abbrev in_pieces : List Read
in_pieces =
    Read.chunk (0 ∷ 2 ∷ 104 ∷ [])
    ∷ Read.interrupted
    ∷ Read.chunk (105 ∷ 0 ∷ 0 ∷ 0 ∷ 0 ∷ 0 ∷ 0 ∷ 1 ∷ 9 ∷ [])
    ∷ []

in_pieces-Flows : Flows in_pieces
in_pieces-Flows = (λ e. cc, (λ e. cc, tt))

run_write : (write_to typed by_two).result ≡ some (ok tt)
unfolding write_to
run_write = refl

run_out : (write_to typed by_two).out ≡ 0 ∷ 2 ∷ 104 ∷ 105 ∷ 0 ∷ 0 ∷ 0 ∷ 0 ∷ 0 ∷ 0 ∷ []
unfolding write_to to_bytes
run_out = refl

in_pieces-stream : stream in_pieces ≡ (write_to typed by_two).out ++ 1 ∷ 9 ∷ []
in_pieces-stream = rw run_out refl

read_from-Reads_example : Reads (take 10 (stream in_pieces)) (1 ∷ 9 ∷ []) (read_from in_pieces)
read_from-Reads_example = read_from-Reads in_pieces in_pieces-Flows (omega arith)

read_from-write_to_example :
    ((read_from in_pieces).result ≡ some (ok typed))
    × (stream (read_from in_pieces).left ≡ 1 ∷ 9 ∷ [])
read_from-write_to_example =
    read_from-write_to typed by_two in_pieces (1 ∷ 9 ∷ []) refl run_write in_pieces-Flows
      in_pieces-stream

-- A stream that pauses behind 2 bytes of a packet.
abbrev begun : List Read
begun = Read.chunk (0 ∷ 2 ∷ []) ∷ []

-- The rest of that packet, and two bytes of the next.
abbrev resumed : List Read
resumed = Read.chunk (104 ∷ 105 ∷ 0 ∷ 0 ∷ 0 ∷ 0 ∷ 0 ∷ 0 ∷ []) ∷ Read.chunk (3 ∷ 0 ∷ []) ∷ []

partial_packet_lost_example :
    (let first = read_from (begun ++ Read.would_block ∷ resumed) in
      (first.result ≡ some (err would_block))
      × Reads (take 10 (stream resumed)) (drop 10 (stream resumed)) (read_from first.left))
partial_packet_lost_example =
    partial_packet_lost begun resumed (λ e. cc, tt) (omega arith) (λ e. cc, (λ e. cc, tt))
      (omega arith)
