-- ===== src/Daemon/Packets/Serve.antt =====
-- What serving one client changes: nothing but that client, and the flag that asks for an eviction.
use zatch.Common.{
  ℕ, ◌≤◌, ◌<◌, ◌≡◌, List, [], ◌∷◌, Option, none, some, Bool, true, false, not, get_elem?, All, refl,
  arith, Result, ok, err, ◌==◌, ◌||◌, Bool-cases, inl, inr,
}
use zatch.Os.{Write}
use zatch.Wire.{
  MsgType, push, attach, detach, winch, redraw, kill, force_detach, info, Packet, from_u8,
  ProtocolError, eof, would_block, io, write_buf,
}
use zatch.Scrollback.{ReplayState, drain, DrainResult, returned, waiting}
use zatch.Scrollback.Replay.{drain-Replays}
use zatch.Daemon.{
  Client, SessionDaemon, Effect, Handled, handle_push, handle_attach, attach_drained, handle_detach,
  handle_force_detach, handle_info, write_lines, handle_winch, handle_redraw, handle_kill,
  set_client, info_lines, wrote, Termios,
}
use zatch.Daemon.Packets.{Batch, dispatch, serve}
use zatch.Daemon.Clients.{map-set, All-set, All-get_elem?}
use zatch.Daemon.Inv.{IsValid, IsReplay, fds, received_fds, closed_fds}

abbrev pub Ensures : (Handled → Type 0) → Option Handled → Type 0
Ensures P none = Unit {0}
Ensures P (some h) = P h

pub record Kept (size : ℕ) (d : SessionDaemon) (h : Handled) : Type 0 where
  pub same_fds : fds h.daemon.clients ≡ fds d.clients
  pub no_reads : received_fds h.effects ≡ []
  pub no_closes : closed_fds h.effects ≡ []
  pub replays : All (IsReplay size) h.daemon.clients
  pub same_ring : h.daemon.scrollback ≡ d.scrollback
  pub same_log : h.daemon.log ≡ d.log

abbrev IsQuiet : Option (List Effect) → Type 0
IsQuiet none = Unit {0}
IsQuiet (some es) = (received_fds es ≡ []) × (closed_fds es ≡ [])

-- One more line keeps the effects quiet.
line-IsQuiet :
    (fd : ℕ) (out : List ℕ) (r : Option (Unit {0})) (later : Option (List Effect))
    → IsQuiet later
    → IsQuiet (elim r [
      | none ↦ none
      | some _ ↦ elim later [ none ↦ none | some es ↦ some (wrote fd out ∷ es) ]
    ])
line-IsQuiet fd out none later q = tt
line-IsQuiet fd out (some _) none q = tt
line-IsQuiet fd out (some _) (some es) q = q

write_lines-IsQuiet :
    (fd : ℕ) (lines : List (List ℕ)) (writes : List Write) → IsQuiet (write_lines fd lines writes)
unfolding write_lines
write_lines-IsQuiet fd [] writes = (refl, refl)
write_lines-IsQuiet fd (line ∷ lines) writes =
    let s = write_buf line writes in
    line-IsQuiet fd s.out s.result (write_lines fd lines s.left)
      (write_lines-IsQuiet fd lines s.left)

module _ (size : ℕ) (b : Batch) (d : SessionDaemon) (i : ℕ) (c : Client)
    (here : get_elem? d.clients i ≡ some c) (v : IsValid size d) where
  -- A handler that leaves the clients alone.
  unchanged :
      (keep evict : Bool) (es : List Effect)
      → received_fds es ≡ []
      → closed_fds es ≡ []
      → Kept size d
          (record { keep = keep; daemon = record d { evict_attached = evict }; effects = es })
  unchanged keep evict es r k = record {
    same_fds = refl;
    no_reads = r;
    no_closes = k;
    replays = v.replays;
    same_ring = refl;
    same_log = refl;
  }

  -- One that changes client `i`, but not its descriptor.
  changed :
      (c' : Client) (es : List Effect)
      → c'.fd ≡ c.fd
      → IsReplay size c'
      → received_fds es ≡ []
      → closed_fds es ≡ []
      → Kept size d (record { keep = true; daemon = set_client d i c'; effects = es })
  changed c' es same q r k = record {
    same_fds = map-set (λ (x : Client). x.fd) d.clients i c c' here same;
    no_reads = r;
    no_closes = k;
    replays = All-set (IsReplay size) d.clients i c' q v.replays;
    same_ring = refl;
    same_log = refl;
  }

  old-IsReplay : IsReplay size c
  old-IsReplay = All-get_elem? (IsReplay size) d.clients i c here v.replays

  drained :
      (rs : ReplayState) (sent : List ℕ) (r : DrainResult)
      → rs.head < size
      → rs.remaining ≤ size
      → Ensures (Kept size d) (attach_drained d i c rs sent r)
  unfolding attach_drained
  drained rs sent waiting h l = tt
  drained rs sent (returned done) h l = changed _ _ refl (h, l) refl refl

  attach-Kept :
      (pkt : Packet) (writes : List Write)
      → Ensures (Kept size d) (handle_attach size d i c pkt writes)
  unfolding handle_attach
  attach-Kept pkt writes = elim (Bool-cases (not (pkt.len == 0) || d.scrollback.len == 0)) [
    | inl e ↦ rw e (changed _ _ refl old-IsReplay refl refl)
    | inr e ↦
        let r =
          drain size d.scrollback.buf
            (record { head = d.scrollback.head; remaining = d.scrollback.len }) writes in
        let q =
          drain-Replays size d.scrollback.buf v.ring.full_size writes
            (record { head = d.scrollback.head; remaining = d.scrollback.len }) v.ring.head_in
            v.ring.len_in in
        rw e (drained r.state r.sent r.result q.head_in (omega (arith, q.less, v.ring.len_in)))
  ]

  info-Kept : (writes : List Write) → Ensures (Kept size d) (handle_info d c.fd writes)
  unfolding handle_info
  info-Kept writes =
      told (write_lines c.fd (info_lines d.clients) writes)
        (write_lines-IsQuiet c.fd (info_lines d.clients) writes)
    where
      told :
          (r : Option (List Effect))
          → IsQuiet r
          → Ensures (Kept size d) (elim r [
            | none ↦ none
            | some es ↦ some (record { keep = false; daemon = d; effects = es })
          ])
      told none q = tt
      told (some es) q = unchanged false d.evict_attached es q.0 q.1

  redraw-Kept : (pkt : Packet) (t : Option Termios) → Kept size d (handle_redraw d pkt t)
  unfolding handle_redraw
  redraw-Kept pkt t =
      unchanged true d.evict_attached (handle_redraw d pkt t).effects (ground arith) (ground arith)

  dispatch-Kept :
      (pkt : Packet) (t : Option MsgType) → Ensures (Kept size d) (dispatch size b d i c pkt t)
  unfolding dispatch handle_push handle_detach handle_force_detach handle_winch handle_kill
  dispatch-Kept pkt (some push) =
      unchanged true d.evict_attached (handle_push d pkt).effects (ground arith) (ground arith)
  dispatch-Kept pkt (some attach) = attach-Kept pkt (b.writes c.fd)
  dispatch-Kept pkt (some detach) = changed _ _ refl old-IsReplay refl refl
  dispatch-Kept pkt (some winch) = unchanged true d.evict_attached _ refl refl
  dispatch-Kept pkt (some redraw) = redraw-Kept pkt b.termios
  dispatch-Kept pkt (some kill) = unchanged true d.evict_attached _ refl refl
  dispatch-Kept pkt (some force_detach) = unchanged false true [] refl refl
  dispatch-Kept pkt (some info) = info-Kept (b.writes c.fd)
  dispatch-Kept pkt none = unchanged true d.evict_attached [] refl refl

  -- In a state that satisfies the invariant, whatever a client of the list sends, serving it, once
  -- that comes back, keeps the list of descriptors, the ring and the log, keeps each replay inside
  -- the ring, and neither reads another client nor closes a descriptor.
  pub serve-Kept :
      (r : Option (Result Packet ProtocolError)) → Ensures (Kept size d) (serve size b d i c r)
  unfolding serve
  serve-Kept none = tt
  serve-Kept (some (err eof)) = unchanged false d.evict_attached [] refl refl
  serve-Kept (some (err would_block)) = unchanged true d.evict_attached [] refl refl
  serve-Kept (some (err (io e))) = unchanged false d.evict_attached [] refl refl
  serve-Kept (some (ok pkt)) = dispatch-Kept pkt (from_u8 pkt.msg_type)
