-- ===== src/Create/Tests.antt =====
-- A new session from a terminal.
use zatch.Common.{◌≡◌, List, [], ◌∷◌, none, false, err, codes, refl, arith}
use zatch.Os.{Read}
use zatch.Wire.Receive.{stream, Flows}
use zatch.Session.Connect.History.{Served}
use zatch.Session.Connect.Example.{joining, daemon, daemon-IsValid, batch}
use zatch.Session.Example.{sess}
use zatch.Session.Kill.{connect_socket}
use zatch.Session.Nesting.{inside}
use zatch.Create.Example.{world}
use zatch.Session.Connect.{
  attach_start, try_connect, requested, attach_packet, replay_log, redraw_packet,
}
use zatch.Start.{session_daemon_main}
use zatch.Wire.{write_to}
use zatch.Create.{prepared, prompt_attach_if_running, cmd_new}
use zatch.Create.Begins.{Attached, ran_sent, cmd_new-Attached}

nothing_answers : connect_socket (err 2) none ≡ err 2
unfolding connect_socket
nothing_answers = refl

outside : inside none (prepared sess world (codes "/d/s")).sockname ≡ false
unfolding inside
outside = refl

-- The two packets, in pieces.
abbrev incoming : List Read
incoming =
    Read.chunk (1 ∷ 1 ∷ 0 ∷ 0 ∷ 0 ∷ 0 ∷ [])
    ∷ Read.chunk (0 ∷ 0 ∷ 0 ∷ 0 ∷ 4 ∷ 3 ∷ 24 ∷ [])
    ∷ Read.chunk (0 ∷ 80 ∷ 0 ∷ 0 ∷ 0 ∷ 0 ∷ 0 ∷ [])
    ∷ []

incoming-Flows : Flows incoming
incoming-Flows = (λ e. cc, (λ e. cc, (λ e. cc, tt)))

incoming-stream :
    stream incoming ≡ ran_sent (cmd_new (λ e. codes "error") sess world (codes "/d/s"))
unfolding cmd_new prompt_attach_if_running connect_socket session_daemon_main attach_start
    try_connect inside requested write_to attach_packet replay_log redraw_packet
incoming-stream = refl

cmd_new-Attached_example :
    Attached
      (prepared sess world (codes "/d/s"))
      world
      (cmd_new (λ e. codes "error") sess world (codes "/d/s"))
    × Served
        (prepared sess world (codes "/d/s"))
        world.second.ws
        world.second.log
        4
        batch
        daemon
        daemon
        0
        joining
        joining
        incoming
cmd_new-Attached_example =
    cmd_new-Attached (λ e. codes "error") sess world (codes "/d/s") 2 50 4 batch daemon daemon 0
      joining joining incoming nothing_answers refl refl refl refl refl (refl, refl, refl) refl
      outside tt (omega arith)
      (record { row = omega arith; col = omega arith; xpixel = omega arith; ypixel = omega arith })
      incoming-Flows incoming-stream daemon-IsValid
