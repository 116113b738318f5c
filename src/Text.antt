-- ===== src/Text.antt =====
-- Strings of the application and of the client: what the standard library makes of bytes.
pub mod Utf8
pub mod Ascii
pub mod Decimal
pub mod Names
