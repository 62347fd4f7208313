-- ===== src/Daemon/Attach.antt =====
-- `handle_attach`: what a client is sent when it attaches, and when it becomes live.
use zatch.Common.{
  ℕ, ◌≡◌, ◌≢◌, ◌⊎◌, ◌≤◌, List, ◌++◌, none, true, false, not, ◌&&◌, ◌||◌, set, ◌==◌, if◌then◌else◌,
  refl, arith, append-nil,
}
use zatch.Os.{Write, progress}
use zatch.Scrollback.{ReplayState, drain, DrainResult, returned, waiting}
use zatch.Scrollback.Window.{window, contents}
use zatch.Scrollback.Replay.{drain-Replays, drain-returns}
use zatch.Wire.{Packet}
use zatch.Daemon.{Client, SessionDaemon, Handled, handle_attach, attach_drained}
use zatch.Daemon.Inv.{IsValid}
use zatch.Daemon.Packets.Serve.{Ensures}
use zatch.Daemon.Output.Writes.{written}

eq_self : (n : ℕ) → (n == n) ≡ true
eq_self n = ground arith

-- What a request for a fresh attachment does to client `i`.
pub record Attaches (size : ℕ) (d : SessionDaemon) (i : ℕ) (c : Client) (h : Handled) : Type 0 where
  pub client : Client
  pub placed : h.daemon.clients ≡ set d.clients i client
  pub stays : h.keep ≡ true
  -- What it was sent and what it is still to be sent make up the ring's contents.
  pub replayed :
      written c.fd h.effects
        ++ window size d.scrollback.buf client.replay_head client.replay_remaining
      ≡ contents size d.scrollback
  -- It becomes attached only when nothing is left to be sent.
  pub live : (client.attached ≡ c.attached) ⊎ (client.replay_remaining ≡ 0)

module _ (size : ℕ) (d : SessionDaemon) (i : ℕ) (c : Client) (pkt : Packet) (v : IsValid size d)
    (fresh : pkt.len ≡ 0) (some_ring : d.scrollback.len ≢ 0) where
  start : ReplayState
  start = record { head = d.scrollback.head; remaining = d.scrollback.len }

  drained-Attaches :
      (rs : ReplayState) (sent : List ℕ) (r : DrainResult)
      → sent ++ window size d.scrollback.buf rs.head rs.remaining ≡ contents size d.scrollback
      → Ensures (Attaches size d i c) (attach_drained d i c rs sent r)
  unfolding attach_drained
  drained-Attaches rs sent waiting e = tt
  drained-Attaches rs sent (returned done) e = record {
    client = record c {
      attached = if done && rs.remaining == 0 then true else c.attached;
      replay_head = rs.head;
      replay_remaining = rs.remaining;
    };
    placed = refl;
    stays = refl;
    replayed = rw (eq_self c.fd, append-nil) e;
    live = ground arith;
  }

  replays_ring : not (pkt.len == 0) || d.scrollback.len == 0 ≡ false
  replays_ring = ground arith

  -- In a state that satisfies the invariant and has some output in the ring, a client that asks for
  -- a fresh attachment (length 0) is sent the ring's contents, oldest byte first, or a first part
  -- of them, when the call comes back; the replay state names the rest, and the client does not
  -- become live before there is none.
  pub handle_attach-Attaches :
      (writes : List Write) → Ensures (Attaches size d i c) (handle_attach size d i c pkt writes)
  unfolding handle_attach start
  handle_attach-Attaches writes =
      let r = drain size d.scrollback.buf start writes in
      let q =
        drain-Replays size d.scrollback.buf v.ring.full_size writes start v.ring.head_in
          v.ring.len_in in
      rw replays_ring (drained-Attaches r.state r.sent r.result q.bytes)

  -- In a state that satisfies the invariant and has some output in the ring, `handle_attach` for a
  -- fresh attachment comes back once the kernel took bytes as often as the ring holds bytes.
  pub handle_attach-returns :
      (writes : List Write)
      → d.scrollback.len ≤ progress writes
      → handle_attach size d i c pkt writes ≢ none
  unfolding handle_attach start
  handle_attach-returns writes h =
      let r = drain size d.scrollback.buf start writes in
      rw replays_ring (
        came_back r.state r.sent r.result
          (drain-returns size d.scrollback.buf writes start v.ring.head_in h))
    where
      came_back :
          (rs : ReplayState) (sent : List ℕ) (r : DrainResult)
          → r ≢ waiting
          → attach_drained d i c rs sent r ≢ none
      came_back rs sent waiting h e = h refl
      came_back rs sent (returned done) h e = cc
