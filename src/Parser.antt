-- ===== src/Parser.antt =====
-- The parser of parserc.go: from the tokens of the scanner to events. A handler is an action on the
-- parser's state, in the order in which the source calls the helpers. A call of the scanner
-- (`yaml_parser_fetch_more_tokens`) takes the next entry of `tokens`, a value of the environment.
pub mod State
pub mod Comments
pub mod Header
pub mod Queue
pub mod Directives
pub mod Node
pub mod Block
pub mod Flow
pub mod Document
pub mod Machine
pub mod Expect
pub mod Valid
pub mod Steps
pub mod Contract
mod Tests
