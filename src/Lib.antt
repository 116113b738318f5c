-- ===== src/Lib.antt =====
-- libtracy is a tracing library in Rust with a C interface. An application registers tracepoints
-- and submits data under their names; a tracer thread, which the library starts, announces the
-- tracer by UDP, serves one TCP client at a time, and sends it the data of the tracepoints that the
-- client has enabled. Application and thread share the cells that say whether a client is connected
-- and whether a tracepoint is enabled, and a channel from the first to the second.
--
-- The files, and the code that they model (paths from the repository's root):
--  Text: names and numbers as text. Text/Ascii has `fix_tracepoint_str` of src/lib.rs, Text/Names
--   its laws; Text/Utf8 and Text/Decimal write out what the standard library does.
--  Wire: the bytes of the TCP protocol. Wire/Element has `BufferElement` of src/lib.rs with
--   `timestamp_to_u64` and `encode_append_trace_data` of src/tcp_handler.rs; Wire/Header has the
--   latter's `Command`, `push_front_header`, `check_parse_header` and what these call; Wire/VecDeque
--   is the standard library's ring buffer, in two pieces as `as_slices` shows it. Wire/Samples and
--   Wire/Frames specify, by readers, what a client makes of the bytes.
--  Platform: the operations of mio, mio-extras and the operating system, as fields of a record, so
--   that every theorem holds for all of them. What a theorem relies on is a hypothesis of it.
--  Tracer: the thread. Tracer/Context has `TracerContext` of src/lib.rs and its methods (the flags
--   behind the `Arc`s are a list of cells, Tracer/Flags; the map is an association list,
--   Tracer/HashMap); Tracer/Sender and Tracer/Receiver are the two halves of src/tcp_handler.rs,
--   Tracer/Reader the standard library's BufReader; Tracer/Beacon is src/udp_beacon.rs, with
--   Tracer/Beacon/Json a reader of JSON that its text is held to;
--   Tracer/Thread has `tracer_thread_main` and the handlers of src/lib.rs. Tracer/Invariant has what
--   holds between the calls.
--  Api: the five functions of the C interface, in src/lib.rs. A NULL pointer is `none`.
--  System: both sides as one system. A step is a call of `tracy_register` or `tracy_submit`, the
--   events of one `poll` in the thread, or what the network and the clock do, each as a whole.
--  Tests: a platform that computes, and the theorems at concrete inputs.
--
-- A call of the thread ends as an `Outcome`: with a result, in a panic (an `unwrap` or an `expect`
-- that fails), or, in the model alone, with its fuel spent. `send_trace_data` brings its own fuel,
-- which suffices for elements that fit a message; the loops over the channel, the timer and the
-- socket are given theirs. Lengths that the code casts to u16, u32 or u64 wrap at that width, and
-- sums and products of u64 wrap as in a release build.
--
-- Not modelled: printing, steps of the application in the middle of a step of the thread, what an
-- allocation that fails does, and everything that is not Rust (the C header, the client,
-- the dissector, the examples, the empty replacement).
pub mod Common
pub mod Text
pub mod Wire
pub mod Platform
pub mod Tracer
pub mod Api
pub mod System
pub mod Tests
