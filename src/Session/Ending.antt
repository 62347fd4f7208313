-- ===== src/Session/Ending.antt =====
-- How a client's `event_loop` ends: it restores the terminal, and then does nothing more.
use zatch.Common.{ℕ, ◌≡◌, ◌⊎◌, List, ◌++◌, none, some, All}
use zatch.Wire.Winsize.{Winsize}
use zatch.Session.{Session, Act, exit, restore_and_exit}
use zatch.Session.Loop.{Ran}

abbrev pub IsGoing : Act → Type 0
IsGoing (exit code) = ⊥
IsGoing _ = Unit {0}

-- The process goes on and has not called `exit`, or it has ended, and its last two acts, and only
-- those, restore the terminal and exit with the status.
pub record Restores (r : Ran) : Type 0 where
  pub before : List Act
  pub going : All IsGoing before
  pub last :
      ((r.over ≡ none) × (r.acts ≡ before))
      ⊎ ((code : ℕ) × (r.over ≡ some code) × (r.acts ≡ before ++ restore_and_exit code))
