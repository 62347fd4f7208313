-- ===== src/Lib.antt =====
-- ztch keeps a terminal session alive behind a Unix socket. A daemon, one process for each session, owns
-- the terminal and the child that runs in it; clients connect to the socket, send it 10-byte packets, and
-- receive the raw output of the terminal. What this library models, part by part:
--
-- Os: the kernel's answers to read, write and select. The kernel is not part of the program, so that an
-- operation takes as arguments the answers that it gets, in order, and yields the calls that it made.
-- Nothing is assumed of the answers but what a theorem's hypotheses say. A result `none` is an operation
-- that is still waiting for an answer.
--
-- Wire (src/protocol.rs, and the window size of src/session_daemon.rs and src/session.rs): packets as
-- bytes, and the loops `Packet::read_from`, `Packet::write_to` and `write_buf`. A byte is a number; a
-- field that is one byte wide is below 256 where that matters. Methods has the redraw and clear methods,
-- Codec the packets as bytes, Receive and Transmit the loops, Returns when they come back, Winsize the window
-- size.
--
-- Scrollback (src/scrollback.rs): the ring of the last SCROLLBACK_SIZE bytes of output, and `ReplayState`,
-- by which a client is sent the ring's contents piece by piece. SCROLLBACK_SIZE is an argument `size` of
-- every definition; 131072 is the program's. The code masks indices
-- by SCROLLBACK_SIZE - 1, which for a power of two is `% size`. Window has the ring's invariant and what
-- the ring holds, as a list; Append, Replay, Progress and Whole are about the two operations.
--
-- Daemon (src/session_daemon.rs, with src/client.rs and src/pty.rs): the state `SessionDaemon`, its packet
-- handlers, and in the modules below it
--   Daemon.Packets (`handle_client_packets`) with the step of one packet in Serve, the loop in Once, and
--     when they come back in Answers; Report is the text that `handle_info` writes;
--   Daemon.Attach, the theorems on `handle_attach`;
--   Daemon.Output (`handle_pty_output`, `send_to_clients`, `cleanup`), with Writes, Delivery and Pty;
--   Daemon.Run (`run`, `build_fd_sets`, `accept_client`, `drain_replay` and the eviction), where `Turn` is
--     what the kernel answers in one round of the loop and `Reaches` the states of a session; Steps,
--     Keep and Safety are about the rounds, Detach about a client that detaches in its replay, Liveness
--     about one that waits for it;
--   Daemon.Inv, the invariant, and Daemon.Clients, the lemmas on the list of clients.
-- A method yields the new state with the list of its effects: reads, writes, signals, closed descriptors.
--
-- Session (src/session.rs): the client, with the configuration `Session` and the acts by which it is seen.
--   Session.Connect is `Session::attach` up to its event loop, with `try_connect` and `replay_log`; History
--     is about what the user has been shown and what the daemon is asked for. Nesting is the guard against
--     an attachment from within, with the variable that src/pty.rs sets;
--   Session.Loop is a round of that loop (`event_loop`, `handle_server_data`, `handle_stdin_data`), with
--     how it ends in Ending, and Input about what is typed; Terminal has the terminal's attributes and the
--     signal handlers, with Restores about them;
--   Session.Kill is `Session::kill`, with Stop and Signals about it;
--   Session.Push is `Session::push`, with Arrives about the bytes that the daemon is given;
--   Session.Query is `cmd_info`, `cmd_detach` and `cmd_current`, with Reports about the first;
--   Session.Directory has the files of the session directory; Listing is `list`, and Remove `rm_all` and
--     `rm_single`; Store, Sweep, Spares, Clears, Shown and Single are about them, and Attached about the mode
--     of a socket file, which the daemon sets and `list` reads.
-- Input, Signals, Push.Arrives, Connect.History and Query.Reports follow a packet from the client through
-- the daemon's handler.
--
-- Start (src/sock.rs, and `session_daemon_main` of src/session_daemon.rs): how a session comes to be. `fork`
-- has two results, the parent's and the child's, and the pipe between them is the list of bytes in it.
-- Create (src/session.rs): `cmd_attach`, `cmd_new`, `cmd_start`, `cmd_run` and `implicit_attach`, on top of
-- Start and Session.Connect. Each takes a `World`, with an answer for each of its calls.
-- Cli (src/main.rs): the options, and the commands that stand there, on top of Session; `cmd_tail` is in
-- Cli.Tail. Cli.Main is `main` with its dispatch over all commands, where what clap has parsed and the
-- answers to every call are arguments; Running is about the sessions that run meanwhile.
--
-- Log (src/session_log.rs, src/app_log.rs): a log file as its bytes and a cursor, with `SessionLog` in
-- Log.Session and `AppLog` in Log.App. The daemon's state has only what was appended to its log.
--
-- Util (src/util.rs, and `format_age` of src/protocol.rs): the names, sizes, keys and ages that users read
-- and write (Names, Parse), and where the last lines of a file start (Tail). A string is the list of its
-- code points.
--
-- Common: the native numbers with Boolean tests and their bits, lists indexed by them, decimal notation.
--
-- Bounds and fuel: only the loop of `handle_client_packets` runs on fuel, the number of clients, which is
-- enough because each round moves on by one client or removes one (Daemon.Packets.Answers). The
-- other loops recur on the list of the kernel's answers, and a theorem says when they come back. usize
-- additions are not wrapped: an index is below twice SCROLLBACK_SIZE.
--
-- Not modelled: the parsing of the command line, which is the clap library's; the loop of `ztch tail -f`,
-- which does not end; the calls that leave no result in the program, or only a descriptor (forkpty, exec,
-- setsid, the redirections of a daemon's start, SO_PEERCRED, tcgetattr), and `cstr`. Files change only by the program's
-- own calls: what other processes do to the session directory meanwhile is not modelled.
pub mod Cli
pub mod Common
pub mod Create
pub mod Daemon
pub mod Log
pub mod Os
pub mod Scrollback
pub mod Session
pub mod Start
pub mod Util
pub mod Wire
