-- ===== src/Wire.antt =====
-- src/tcp_handler.rs and src/lib.rs: what goes over the TCP connection. A byte is a number below
-- 256, a byte string is a list of them.
pub mod VecDeque
pub mod Element
pub mod Header
pub mod Samples
pub mod HeaderLaws
pub mod Frames
pub mod NameList
