-- ===== src/Wire/Methods.antt =====
-- src/protocol.rs: how the daemon redraws, and how a client clears the terminal.
use zatch.Common.{ℕ}

pub data RedrawMethod : Type 0 where
  unspec none ctrl_l winch : RedrawMethod

unfoldable pub redraw_as_u8 : RedrawMethod → ℕ
redraw_as_u8 RedrawMethod.unspec = 0
redraw_as_u8 RedrawMethod.none = 1
redraw_as_u8 RedrawMethod.ctrl_l = 2
redraw_as_u8 RedrawMethod.winch = 3

pub data ClearMethod : Type 0 where
  unspec none move : ClearMethod
