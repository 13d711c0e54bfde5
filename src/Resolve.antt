-- ===== src/Resolve.antt =====
-- resolve.go: short and long tags, and the tag and the value of a scalar.
pub mod Tags
pub mod Numbers
pub mod Scalar
pub mod Inference
pub mod Forms
pub mod Digits
pub mod Integers
pub mod Base64
pub mod Lines
mod Tests
