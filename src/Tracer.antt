-- ===== src/Tracer.antt =====
-- The tracer thread: src/lib.rs from `TracerContext` on, src/tcp_handler.rs and src/udp_beacon.rs.
pub mod HashMap
pub mod Flags
pub mod Context
pub mod Reader
pub mod Sender
pub mod Receiver
pub mod Beacon
pub mod Thread
pub mod Invariant
