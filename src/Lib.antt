-- ===== src/Lib.antt =====
-- Webshooter streams a Linux desktop to a browser: the server (server/src) captures the screen and
-- injects the input of its sessions into the compositor, the page (webui/wasm/src) shows the
-- stream and sends input, and both share the messages and the limits of shared/src.
--
-- The parts and their files, each under the path that its first line names:
--   * Shared.ClientDatagram, Shared.ServerDatagram: the messages of both ends, as data types with
--     the variants of the source, with `to_bytes` and `from_bytes` byte by byte (shared/src/
--     client_datagram.rs, server_datagram.rs). Shared.Error has an error for each `bail!`,
--     Shared.Codec, Shared.LogLevel and Shared.TrackNames the values inside messages, and Shared.Mux
--     the byte that routes a message to MoQ or to a parser (codec.rs, log_level.rs, track_names.rs,
--     mux.rs).
--   * Shared.ClientDatagram.Coalesce: `coalesce_input`, the merging of pending input, which the page
--     uses; Shared.Throttle: the limits on the rate of input (throttle.rs); Shared.WakeQueue: the
--     queue between tasks, each method one step under its lock (wake_queue.rs).
--   * Server.InputCoalesce: the buffer of a session's input and the budget of all sessions
--     (server/src/pipewire/input_coalesce.rs); Server.Touch, Server.Pointer and Server.Keyboard: what
--     becomes of an input message on its way to the compositor (touch.rs, pointer.rs,
--     eis_keyboard.rs); Server.Gamepad: the virtual joypads (gamepad.rs, with the map of buttons of
--     client_datagram.rs).
--   * Server.Eis: the two loops that these run in (server/src/pipewire/eis.rs). Its child Task is
--     `input_task` with `dispatch_input`, over the arms that its `select!` takes; Frame is `eis_main`
--     with the channel between the two, the frames for the compositor and the wait while its device
--     is paused. Touches, Keys, Order and Device say what comes out of them.
--   * Server.Bitrate: the bitrate of the encoder (bitrate.rs), and in its child Govern what drives it:
--     `report_link` of server/src/wt.rs and `govern_bitrate` of pipewire/video.rs; Server.Picking:
--     `best_stream_index` of video.rs; Server.Flood and Server.Names: the guard of the receive pump,
--     the counter that drops a session, and what names a session's devices (server/src/wt.rs).
--   * Server.Transport: the transport below MoQ. Its child Recv is the receiving stream with the byte
--     that names it, Slots the operations of a connection, Pump the mux between MoQ and the rest
--     (server/src/moq/transport.rs, mod.rs).
--   * Server.Config: which file is the configuration and how it is parsed (server/src/config.rs);
--     Server.ClientLogs: the log records that a page posts (server/src/main.rs).
--   * Server.Registry: the ids of sessions, and in its child Sessions the registry of clients with
--     the task handles of each, also where `run_session` of wt.rs cancels its own token; Server.Ipc:
--     the commands of `parse_args` (server/src/ipc.rs).
--   * Server.Auth: the limit on failed attempts, and in its children the challenges and cookies
--     (Sessions), the registration with the operator's approval (Register) and the one-time tokens
--     (Onetime) (server/src/auth.rs, error.rs).
--   * Server.Publish: the groups and tracks of screen and audio (server/src/moq/publish.rs) and what
--     the media pump of server/src/wt.rs puts into them; Server.Lock: the lock of the session and the
--     wait for it (server/src/session_lock.rs).
--   * Webui.Throttle: the page's throttle with its queue and timer (webui/wasm/src/throttle.rs);
--     Webui.Resize: `ResizeDebounce` (webui/wasm/src/video.rs); Webui.Moq: the streams of the page, one
--     to read from (Recv) and one to write to (Send), and the wait for control messages (Control)
--     (webui/wasm/src/moq.rs); Webui.Opus: the sizes of Opus packets (webui/wasm/src/audio.rs);
--     Webui.Log: the queue of log records and its flusher (webui/wasm/src/log.rs).
--   * Base: the names and lemmas that all share, UTF-8 text and machine words; Tests: the theorems at
--     concrete inputs.
--
-- State is passed explicitly: an operation on `&mut self` is a function that returns the new state
-- with its result. Clocks, timer handles and the results of streams are arguments. Numbers of w
-- bits are natural numbers with the wrap-around or the saturation of the source written out; an
-- integer with a sign is one of Base.Int. An `f32` is its bit pattern, and the floating-point unit is
-- the record `Floats`, a parameter, of which only the range of a saturating cast and the width of an
-- `f32` are used. The tokens of both budgets and the clock of the page are exact numbers and not
-- `f64`; the shapes of regions and of streams are compared with the divisions multiplied
-- out, which a rounded quotient may decide otherwise at the edge of the tolerance. Wakers are
-- numbers, and the set of touch slots is a list without repetitions. A task is a recursion on the list
-- of the arms that its `select!` takes, and every other loop one on a list but two: the search for a
-- free session id, whose fuel, the number of sessions, is proved to be enough, and a read of a stream,
-- whose fuel counts polls; one more than the stream's waits and bytes and the poll that ends it is
-- proved to be enough.
--
-- What other libraries do is an argument: the moq_net producers in Server.Publish are the frames
-- that they were given, and each of their calls succeeds or fails as an argument says, a failed
-- one leaving its producer as it was; signatures and base64 are functions that Server.Auth takes,
-- and so is `to_lowercase` in Server.Ipc; a promise of the browser is what it gives when it is
-- polled. A stream of QUIC is the record `QuicStream`: a read gives at least one byte of those that
-- are left and at most as many as asked for, waits, or ends as the stream ends. The test
-- `is_alphanumeric`, the creation of a joypad and the parsers of toml, yaml and json5 are functions
-- too. An `Arc` of a session is a number, and each operation of the registry runs as a whole; the
-- login reads its challenge from one state of the sessions and writes into another, since the lock
-- is let go between the two.
--
-- Not modelled: capture and encoding, the handshake of the EIS connection and the wait for its devices,
-- the fields and templates of the configuration, the socket server, HTTP and the browser's calls.
-- These are input and output through other libraries, but for the templates.
pub mod Base
pub mod Shared
pub mod Server
pub mod Webui
pub mod Tests
