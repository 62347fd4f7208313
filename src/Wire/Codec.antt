-- ===== src/Wire/Codec.antt =====
-- The byte values of message types, and the memory layout of packets.
use zatch.Common.{ℕ, ◌≡◌, ◌↔◌, List, [], ◌∷◌, some, length, refl, arith}
use zatch.Wire.{MsgType, push, attach, detach, winch, redraw, kill, force_detach, info}
use zatch.Wire.{as_u8, from_u8, Packet, to_bytes, of_bytes}

-- `from_u8` is exactly the inverse of `as u8`: it yields the type whose value the byte is, and `None`
-- for a byte that is no type's value.
pub from_u8_iff : (v : ℕ) (t : MsgType) → (from_u8 v ≡ some t) ↔ (v ≡ as_u8 t)
unfolding from_u8 as_u8
from_u8_iff v push = (ground arith, ground arith)
from_u8_iff v attach = (ground arith, ground arith)
from_u8_iff v detach = (ground arith, ground arith)
from_u8_iff v winch = (ground arith, ground arith)
from_u8_iff v redraw = (ground arith, ground arith)
from_u8_iff v kill = (ground arith, ground arith)
from_u8_iff v force_detach = (ground arith, ground arith)
from_u8_iff v info = (ground arith, ground arith)

-- A packet has 8 bytes of data.
abbrev pub IsPacket : Packet → Type 0
IsPacket p = length p.payload ≡ 8

pub length-to_bytes : (p : Packet) → IsPacket p → length (to_bytes p) ≡ 10
unfolding to_bytes
length-to_bytes p h = omega arith

pub of_bytes-to_bytes : (p : Packet) → of_bytes (to_bytes p) ≡ p
unfolding of_bytes to_bytes
of_bytes-to_bytes p = refl

pub to_bytes-of_bytes :
    (bs : List ℕ) → length bs ≡ 10 → (to_bytes (of_bytes bs) ≡ bs) × IsPacket (of_bytes bs)
unfolding of_bytes to_bytes
to_bytes-of_bytes [] h = absurd (omega arith)
to_bytes-of_bytes (a ∷ []) h = absurd (omega arith)
to_bytes-of_bytes (a ∷ b ∷ bs) h = (refl, omega arith)
