-- ===== src/Session/Connect/Tests.antt =====
-- An attachment to a session with a log, and sessions inside one another.
use zatch.Common.{◌≡◌, List, [], ◌∷◌, some, false, ok, replicate, codes, refl, arith}
use zatch.Os.{Read, Write, room}
use zatch.Wire.Winsize.{Winsize}
use zatch.Wire.Receive.{stream, Flows}
use zatch.Session.Example.{sess}
use zatch.Session.Nesting.{Nests, inside, child_env-Nests}
use zatch.Session.Connect.{
  LogRead, chunk, attach_start, try_connect, requested, attach_packet, replay_log, redraw_packet,
}
use zatch.Session.Kill.{connect_socket}
use zatch.Wire.{write_to}
use zatch.Session.Connect.History.{Starts, Served, sent_of, attach_start-Starts}
use zatch.Session.Connect.Example.{joining, daemon, daemon-IsValid, batch}

abbrev log : List LogRead
log = chunk (codes "hello\n") ∷ chunk [] ∷ []

abbrev ws : Winsize
ws = record { ws_row = 24; ws_col = 80; ws_xpixel = 0; ws_ypixel = 0 }

abbrev slowly : List Write
slowly = replicate 20 (room 1)

outside : inside (some (codes "/d/other:/d/third")) (codes "/d/s") ≡ false
unfolding inside
outside = refl

-- The two packets, in pieces.
abbrev incoming : List Read
incoming =
    Read.chunk (1 ∷ 1 ∷ 0 ∷ 0 ∷ 0 ∷ 0 ∷ [])
    ∷ Read.chunk (0 ∷ 0 ∷ 0 ∷ 0 ∷ 4 ∷ 3 ∷ 24 ∷ [])
    ∷ Read.chunk (0 ∷ 80 ∷ 0 ∷ 0 ∷ 0 ∷ 0 ∷ 0 ∷ [])
    ∷ []

incoming-Flows : Flows incoming
incoming-Flows = (λ e. cc, (λ e. cc, (λ e. cc, tt)))

incoming-stream :
    stream incoming
    ≡ sent_of (
        attach_start
          (λ e. codes "error")
          sess
          (some (codes "/d/other:/d/third"))
          false
          (ok tt)
          (some 0o140600)
          (some log)
          ws
          slowly)
unfolding attach_start try_connect inside connect_socket requested write_to attach_packet replay_log
    redraw_packet
incoming-stream = refl

attach_start-Starts_example :
    Starts sess ws (some log) (
      attach_start
        (λ e. codes "error")
        sess
        (some (codes "/d/other:/d/third"))
        false
        (ok tt)
        (some 0o140600)
        (some log)
        ws
        slowly)
    × Served sess ws (some log) 4 batch daemon daemon 0 joining joining incoming
attach_start-Starts_example =
    attach_start-Starts (λ e. codes "error") sess (some (codes "/d/other:/d/third")) false
      (some 0o140600) (some log) ws slowly 4 batch daemon daemon 0 joining joining incoming outside
      tt (omega arith)
      (record { row = omega arith; col = omega arith; xpixel = omega arith; ypixel = omega arith })
      incoming-Flows incoming-stream daemon-IsValid

child_env-Nests_example : Nests (some (codes "/d/other:/d/third")) (codes "/d/s")
child_env-Nests_example =
    child_env-Nests (some (codes "/d/other:/d/third")) (codes "/d/s") (λ e. cc)
      (λ e. cc, (λ e. cc, (λ e. cc, (λ e. cc, tt))))

-- A path with a colon is not known from within.
colon_unknown : inside (some (codes "/d/a:b")) (codes "/d/a:b") ≡ false
unfolding inside
colon_unknown = refl
