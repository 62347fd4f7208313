-- ===== src/Wire/Winsize.antt =====
-- The window size in the data of Winch and Redraw packets: `get_winsize_raw` of src/session.rs writes
-- it, `winsize_from_bytes` of src/session_daemon.rs reads it. Native-endian is little-endian on the
-- supported targets.
use zatch.Common.{
  ℕ, ◌+◌, ◌*◌, ◌/◌, ◌%◌, ◌<◌, ◌^◌, ◌≡◌, List, [], ◌∷◌, All, length, get_or, refl, arith,
}

-- `libc::winsize`; each field is a u16.
pub record Winsize : Type 0 where
  pub ws_row : ℕ
  pub ws_col : ℕ
  pub ws_xpixel : ℕ
  pub ws_ypixel : ℕ

abbrev from_ne_bytes : ℕ → ℕ → ℕ
from_ne_bytes lo hi = lo + hi * 256

unfoldable pub winsize_from_bytes : List ℕ → Winsize
winsize_from_bytes payload = record {
  ws_row = from_ne_bytes (get_or payload 0 0) (get_or payload 1 0);
  ws_col = from_ne_bytes (get_or payload 2 0) (get_or payload 3 0);
  ws_xpixel = from_ne_bytes (get_or payload 4 0) (get_or payload 5 0);
  ws_ypixel = from_ne_bytes (get_or payload 6 0) (get_or payload 7 0);
}

-- The data that `get_winsize_raw` fills in, for the window size that the kernel reported.
unfoldable pub winsize_raw : Winsize → List ℕ
winsize_raw ws =
    ws.ws_row % 256
    ∷ ws.ws_row / 256
    ∷ ws.ws_col % 256
    ∷ ws.ws_col / 256
    ∷ ws.ws_xpixel % 256
    ∷ ws.ws_xpixel / 256
    ∷ ws.ws_ypixel % 256
    ∷ ws.ws_ypixel / 256
    ∷ []

pub record IsU16 (ws : Winsize) : Type 0 where
  pub row : ws.ws_row < 2 ^ 16
  pub col : ws.ws_col < 2 ^ 16
  pub xpixel : ws.ws_xpixel < 2 ^ 16
  pub ypixel : ws.ws_ypixel < 2 ^ 16

-- A window size whose fields are u16 is 8 bytes on the wire, each below 256, from which the daemon
-- reads back the same four fields.
pub winsize_round_trip :
    (ws : Winsize)
    → IsU16 ws
    → (winsize_from_bytes (winsize_raw ws) ≡ ws)
      × (length (winsize_raw ws) ≡ 8)
      × All (λ b. b < 256) (winsize_raw ws)
unfolding winsize_from_bytes winsize_raw
winsize_round_trip ws u = (ground arith, refl, omega (arith, u))
