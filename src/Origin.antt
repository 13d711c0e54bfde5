-- ===== src/Origin.antt =====
-- origin.go: the compact sequence of locations that is added to a mapping.
pub mod Decimal
pub mod Nodes
pub mod Reading
pub mod Texts
pub mod Collecting
pub mod Recovery
pub mod Adding
mod Tests
