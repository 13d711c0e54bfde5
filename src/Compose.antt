-- ===== src/Compose.antt =====
-- The parser type of decode.go: the tree of nodes that is made of the events.
pub mod State
pub mod Fields
pub mod Composer
pub mod Spelling
pub mod Anchors
pub mod Feeding
mod Leaves
mod Completion
mod Loops
mod Pairs
mod Wholes
mod Contract
mod Streams
mod Runs
mod Tests
