-- ===== src/Api.antt =====
-- The C interface of src/lib.rs, as the application calls it from its own thread.
pub mod Handle
pub mod Init
pub mod Register
pub mod Submit
pub mod Start
