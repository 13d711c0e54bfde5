-- ===== src/Scanner.antt =====
-- scannerc.go: the levels that the scanner keeps, which are the indentation, the flow levels and the
-- simple keys, the token queue, and the functions that produce tokens.
pub mod State
pub mod Levels
pub mod Fetch
pub mod Indents
pub mod Levelled
pub mod Fetching
pub mod Producing
pub mod Content
pub mod Still
pub mod Scanning
mod Tests
