-- ===== src/Session/Query/Reports.antt =====
-- What `info` shows is what the daemon has written.
use zatch.Common.{
  ℕ, ◌+◌, ◌*◌, ◌≡◌, ◌≤◌, List, [], ◌∷◌, ◌++◌, Option, some, ok, length, codes, refl, ap, ◌∙◌,
  Result,
}
use zatch.Os.{Read, Write, progress, Clean}
use zatch.Wire.{
  info as info_type, new, to_bytes, from_u8, as_u8, read_from, write_to, ProtocolError,
}
use zatch.Wire.Codec.{IsPacket, length-to_bytes}
use zatch.Wire.Receive.{stream, Flows}
use zatch.Wire.Returns.{Steady, write_to-ok}
use zatch.Wire.Transmit.{write_to-all, first_packet}
use zatch.Daemon.{Client, SessionDaemon}
use zatch.Daemon.Packets.{Batch, dispatch, serve}
use zatch.Daemon.Packets.Report.{report, Informs, handle_info-Informs}
use zatch.Log.App.{LogLevel}
use zatch.Util.Names.{session_shortname}
use zatch.Util.Parse.{trim_end}
use zatch.Session.{Session, Act, print, app_log}
use zatch.Session.Kill.{connect_socket}
use zatch.Session.Query.{read_answer, informed, cmd_info}

read_answer-stream :
    (cs rest : List Read) → Flows cs → read_answer (cs ++ (Read.eof ∷ rest)) ≡ some (stream cs)
unfolding read_answer
read_answer-stream [] rest f = refl
read_answer-stream (Read.chunk [] ∷ cs) rest f = absurd (f.0 refl)
read_answer-stream (Read.chunk (b ∷ bs) ∷ cs) rest f = rw (read_answer-stream cs rest f.1) refl
read_answer-stream (Read.interrupted ∷ cs) rest f = read_answer-stream cs rest f
read_answer-stream (Read.eof ∷ cs) rest f = elim f [ ]
read_answer-stream (Read.would_block ∷ cs) rest f = elim f [ ]
read_answer-stream (Read.failed e ∷ cs) rest f = elim f [ ]

-- What the user sees of a report.
abbrev pub shown : Session → List ℕ → List Act
shown sess text =
    let name = session_shortname sess.sockname in
    app_log LogLevel.info (codes "'" ++ (name ++ (codes "': " ++ trim_end text)))
    ∷ print (sess.progname ++ (codes ": '" ++ (name ++ (codes "': " ++ text))))
    ∷ []

informed-ok :
    (sess : Session) (r : Option (Result (Unit {0}) ProtocolError)) (out text : List ℕ)
    (answer : Option (List ℕ))
    → r ≡ some (ok tt)
    → answer ≡ some text
    → informed sess r out answer ≡ some (record { code = 0; acts = shown sess text; sent = out })
unfolding informed
informed-ok sess r out text answer e a = rw (e, a) refl

new_info-IsPacket : IsPacket (new info_type)
unfolding new
new_info-IsPacket = refl

-- The daemon takes the packet for a request of a report.
serve-info :
    (size : ℕ) (b : Batch) (d : SessionDaemon) (i : ℕ) (c : Client)
    → Clean (b.writes c.fd)
    → 31 + 26 * length d.clients ≤ progress (b.writes c.fd)
    → Informs d c.fd (serve size b d i c (some (ok (new info_type))))
unfolding serve dispatch from_u8 as_u8 new
serve-info size b d i c clean enough = handle_info-Informs d c.fd (b.writes c.fd) clean enough

-- `info` shows the daemon's report: if the session takes the request, and the client's descriptor the
-- report, without an error, in pieces of any size, then the daemon, however the bytes of the request
-- come in, answers with the number of attached clients and the process of each of them, closes the
-- client and changes nothing; and if its bytes come in without an error, in any pieces, and then the
-- connection's end, the command has sent the request, prints exactly them, and its exit code is 0.
pub cmd_info-Reports :
    (os_error : ℕ → List ℕ) (sess : Session) (mode : Option ℕ) (writes : List Write)
    (cs rest : List Read) (size : ℕ) (b : Batch) (d : SessionDaemon) (i : ℕ) (c : Client)
    (incoming : List Read) (more : List ℕ)
    → Steady writes
    → 10 ≤ progress writes
    → Flows incoming
    → stream incoming ≡ to_bytes (new info_type) ++ more
    → Clean (b.writes c.fd)
    → 31 + 26 * length d.clients ≤ progress (b.writes c.fd)
    → Flows cs
    → stream cs ≡ report d.clients
    → Informs d c.fd (serve size b d i c (read_from incoming).result)
      × (cmd_info os_error sess (ok tt) mode writes (cs ++ (Read.eof ∷ rest))
          ≡ some (record {
            code = 0;
            acts = shown sess (report d.clients);
            sent = to_bytes (new info_type);
          }))
unfolding cmd_info connect_socket
cmd_info-Reports os_error sess mode writes cs rest size b d i c incoming more s h g asked clean
      enough f comes =
    let w = write_to (new info_type) writes in
    let sent = write_to-ok (new info_type) writes s h in
    let out : w.out ≡ to_bytes (new info_type) =
      write_to-all (new info_type) writes new_info-IsPacket sent in
    let there =
      first_packet (new info_type) incoming more (length-to_bytes (new info_type) new_info-IsPacket)
        g asked in
    (
      rw there.0 (serve-info size b d i c clean enough),
      informed-ok sess w.result w.out (report d.clients) (read_answer (cs ++ (Read.eof ∷ rest)))
            sent (read_answer-stream cs rest f ∙ ap some comes)
          ∙ ap (λ bs. some (record { code = 0; acts = shown sess (report d.clients); sent = bs }))
              out,
    )
