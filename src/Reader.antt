-- ===== src/Reader.antt =====
-- readerc.go: the decoding of the raw input into the UTF-8 buffer of the scanner.
pub mod Decode
pub mod Octets
pub mod Utf8
pub mod Canonical
pub mod Fill
pub mod Utf16
pub mod Text
pub mod Scalars
pub mod Start
mod Tests
