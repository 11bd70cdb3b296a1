-- ===== src/Text.antt =====
-- Rust's texts: a `String` is the list of its UTF-8 bytes.
pub mod Utf8
pub mod Strings
