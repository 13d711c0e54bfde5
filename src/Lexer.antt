-- ===== src/Lexer.antt =====
-- scannerc.go: the scans over the working buffer, which make the content of a token.
pub mod Cursor
pub mod Names
pub mod Directives
pub mod Folding
pub mod Quoted
pub mod Plain
pub mod Outcome
pub mod Moving
pub mod Safe
pub mod NamesEnd
pub mod DirectivesEnd
pub mod GapsEnd
pub mod EscapesEnd
pub mod QuotedEnds
pub mod PlainEnds
pub mod Totality
pub mod Characters
pub mod SingleQuoted
pub mod ReadingBack
mod Tests
