-- ===== src/Scrollback/Tests.antt =====
-- The theorems on the scrollback ring at concrete rings of four bytes.
use zatch.Common.{◌≡◌, List, [], ◌∷◌, refl, arith}
use zatch.Os.{Write, room, interrupted, would_block}
use zatch.Scrollback.{Scrollback, append, ReplayState, drain}
use zatch.Scrollback.Window.{IsValid, contents}
use zatch.Scrollback.Append.{contents-append, append-IsValid}
use zatch.Scrollback.Replay.{Replays, drain-Replays}

-- Two bytes, 4 and 1, round the end of the storage.
abbrev wrapped : Scrollback
wrapped = record { buf = 1 ∷ 2 ∷ 3 ∷ 4 ∷ []; head = 3; len = 2 }

wrapped-IsValid : IsValid 4 wrapped
wrapped-IsValid = record { full_size = refl; head_in = omega arith; len_in = omega arith }

abbrev replay : ReplayState
replay = record { head = 3; remaining = 3 }

abbrev slow : List Write
slow = interrupted ∷ room 5 ∷ would_block ∷ []

run_append :
    append 4 wrapped (5 ∷ 6 ∷ 7 ∷ []) ≡ record { buf = 1 ∷ 5 ∷ 6 ∷ 7 ∷ []; head = 0; len = 4 }
unfolding append
run_append = refl

run_drain : (drain 4 wrapped.buf replay slow).sent ≡ 4 ∷ []
unfolding drain
run_drain = refl

append-IsValid_example : IsValid 4 (append 4 wrapped (5 ∷ 6 ∷ 7 ∷ []))
append-IsValid_example = append-IsValid 4 wrapped (5 ∷ 6 ∷ 7 ∷ []) wrapped-IsValid

contents-append_example : contents 4 (append 4 wrapped (5 ∷ 6 ∷ 7 ∷ [])) ≡ 1 ∷ 5 ∷ 6 ∷ 7 ∷ []
contents-append_example = contents-append 4 wrapped (5 ∷ 6 ∷ 7 ∷ []) wrapped-IsValid

drain-Replays_example : Replays 4 wrapped.buf refl replay (drain 4 wrapped.buf replay slow)
drain-Replays_example = drain-Replays 4 wrapped.buf refl slow replay (omega arith) (omega arith)
