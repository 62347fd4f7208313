-- ===== src/Daemon/Packets.antt =====
-- `SessionDaemon::handle_client_packets` of src/session_daemon.rs.
pub mod Serve
pub mod Once
pub mod Answers
pub mod Report
use zatch.Common.{
  ℕ, zero, suc, ◌+◌, List, [], ◌∷◌, ◌++◌, Option, none, some, Bool, true, false, length, get_elem?,
  if◌then◌else◌, Result, ok, err,
}
use zatch.Os.{Read, Write}
use zatch.Wire.{
  MsgType, push, attach, detach, winch, redraw, kill, force_detach, info, Packet, from_u8,
  ProtocolError, eof, would_block, io, read_from, Received,
}
use zatch.Daemon.{
  Client, SessionDaemon, Effect, received, close, Termios, Handled, handle_push, handle_attach,
  handle_detach, handle_force_detach, handle_info, handle_winch, handle_redraw, handle_kill,
}
use zatch.Daemon.Clients.{swap_remove}

-- What the kernel answers during one batch: which descriptors `select` reported readable, what the
-- reads and the writes of each client's descriptor give, and what `tcgetattr` reports.
pub record Batch : Type 0 where
  pub readable : ℕ → Bool
  pub reads : ℕ → List Read
  pub writes : ℕ → List Write
  pub termios : Option Termios

-- The call of a handler for a packet of client `i`, which is `c`.
unfoldable pub dispatch :
    ℕ → Batch → SessionDaemon → ℕ → Client → Packet → Option MsgType → Option Handled
dispatch size b d i c pkt (some push) = some (handle_push d pkt)
dispatch size b d i c pkt (some attach) = handle_attach size d i c pkt (b.writes c.fd)
dispatch size b d i c pkt (some detach) = some (handle_detach d i c)
dispatch size b d i c pkt (some winch) = some (handle_winch d pkt)
dispatch size b d i c pkt (some redraw) = some (handle_redraw d pkt b.termios)
dispatch size b d i c pkt (some kill) = some (handle_kill d pkt)
dispatch size b d i c pkt (some force_detach) = some (handle_force_detach d)
dispatch size b d i c pkt (some info) = handle_info d c.fd (b.writes c.fd)
dispatch size b d i c pkt none = some (record { keep = true; daemon = d; effects = [] })

-- The read of a packet and its dispatch; a closed or broken connection is not kept.
unfoldable pub serve :
    ℕ → Batch → SessionDaemon → ℕ → Client → Option (Result Packet ProtocolError) → Option Handled
unfolding from_u8 dispatch
serve size b d i c none = none
serve size b d i c (some (ok pkt)) = dispatch size b d i c pkt (from_u8 pkt.msg_type)
serve size b d i c (some (err eof)) = some (record { keep = false; daemon = d; effects = [] })
serve size b d i c (some (err would_block)) =
    some (record { keep = true; daemon = d; effects = [] })
serve size b d i c (some (err (io e))) = some (record { keep = false; daemon = d; effects = [] })

-- The state that a batch leaves with the system calls that it made, if all of them came back.
abbrev pub Outcome : Type 0
Outcome = Option (SessionDaemon × List Effect)

abbrev pub after_calls : List Effect → Outcome → Outcome
after_calls es none = none
after_calls es (some (d, later)) = some (d, es ++ later)

-- The removal of client `i`, which closes its descriptor.
abbrev pub drop_client : SessionDaemon → ℕ → SessionDaemon
drop_client d i = record d { clients = swap_remove d.clients i }

-- The `while` loop from client `i` on, for `fuel` rounds; it ends when there is no client `i`.
unfoldable pub packets_loop : ℕ → Batch → ℕ → ℕ → SessionDaemon → Outcome
unfolding serve
packets_loop size b zero i d = some (d, [])
packets_loop size b (suc fuel) i d = elim (get_elem? d.clients i) [
  | none ↦ some (d, [])
  | some c ↦ elim (b.readable c.fd) [
    | false ↦ packets_loop size b fuel (i + 1) d
    | true ↦ elim (serve size b d i c (read_from (b.reads c.fd)).result) [
      | none ↦ none
      | some h ↦ elim h.keep [
        | true ↦ after_calls (received c.fd ∷ h.effects) (packets_loop size b fuel (i + 1) h.daemon)
        | false ↦
            after_calls (received c.fd ∷ (h.effects ++ close c.fd ∷ []))
              (packets_loop size b fuel i (drop_client h.daemon i))
      ]
    ]
  ]
]

-- Each round serves a client or removes one, so there are at most as many as clients.
unfoldable pub handle_client_packets : ℕ → Batch → SessionDaemon → Outcome
unfolding packets_loop
handle_client_packets size b d = packets_loop size b (length d.clients) 0 d
