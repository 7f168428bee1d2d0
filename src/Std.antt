-- ===== src/Std.antt =====
-- What the source calls of Rust's standard library on strings, numbers and addresses.
pub mod Text
pub mod Numbers
pub mod Addresses
pub mod Reads
pub mod Rest
