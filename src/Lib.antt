-- ===== src/Lib.antt =====
-- A verification library for the YAML package of this repository (a Go port of libyaml with comments,
-- extended by the injection of origins).
--
-- The parts of the program. Bytes go through the reader (readerc.go), which detects the encoding and
-- fills a working buffer with UTF-8; the scanner (scannerc.go) makes tokens and comments of the buffer,
-- with the character classes of yamlprivateh.go; the parser (parserc.go) makes events of the tokens;
-- decode.go composes the events into Node trees, and decodes those into Go values; resolve.go gives
-- scalars their tags and values. In the other direction encode.go and emitterc.go go from values to
-- events and to text, and writerc.go writes it. yamlh.go declares the structures they share.
--
-- Base holds what all modules share: library names passed on, the Boolean tests and list functions over
-- the native numbers, and bytes as numbers. Types has the data of yamlh.go: tokens, events, marks and
-- parser states; an enumeration is a data type, and `token_code` the number of a token type.
--
-- Parser is parserc.go. Parser/State has the fields of `yaml_parser_t` that the parser uses, and the
-- actions: a function of the source returns true, returns false with the error set, or panics, which
-- are the three cases of `Outcome`. Parser/Comments and Parser/Queue have `yaml_parser_unfold_comments`,
-- `peek_token`, `skip_token` and `yaml_parser_split_stem_comment`; Parser/Directives has
-- `yaml_parser_process_directives`; Parser/Node `yaml_parser_parse_node`; Parser/Block, Parser/Flow and
-- Parser/Document the handlers of the states, named as in the source without `yaml_parser_`;
-- Parser/Machine has `yaml_parser_state_machine` and `yaml_parser_parse`, and `run`, the loop of a
-- caller. Parser/Expect is the contract: the grammar of event streams as a stack machine that knows
-- nothing of tokens. Parser/Valid is the invariant and the measure, Parser/Steps has, handler by
-- handler, what a call does to them, and Parser/Contract draws the conclusions. Parser/Header is about
-- the head comment of an implicit document. Parser/Tests runs the parser.
--
-- Reader is readerc.go. Reader/Decode has the body of the loop of `yaml_parser_update_buffer`: the
-- decoding of one character, the range check, and the UTF-8 encoding that is written. Reader/Fill has
-- the loop over the raw buffer and `yaml_parser_determine_encoding`. The other modules of Reader are
-- about these functions. Chars is yamlprivateh.go, and Reader/Scalars relates its tests on octets to
-- the characters that the reader writes.
--
-- Origin is origin.go. Origin/Nodes has the nodes of yaml.go with the fields that it reads and its
-- functions, from `addOriginInMap` to `intNode`; Origin/Decimal the decimal texts. Origin/Reading is
-- the consumer of the sequence, which is not in the repository: it is written from the comments of
-- origin.go. The other modules of Origin are about these functions.
--
-- Resolve is resolve.go. Resolve/Tags has `shortTag`, `longTag` and `resolvableTag`, with the maps
-- of `init` as lists of entries; Resolve/Numbers `strconv.ParseInt`, `strconv.ParseUint` and the
-- regular expression of floats; Resolve/Scalar the tables, `parseTimestamp` and `resolve`. Floats
-- and times, with what the Go library does on them, are a record that the definitions take as an
-- argument. Resolve/Base64 has `encodeBase64`, and the decoding that a reader of it does. The
-- deferred function of `resolve` is `check_tag`, applied to what the switch returns. The other
-- modules of Resolve are about these functions.
--
-- Compose is the `parser` type of decode.go, which composes events into nodes. Compose/State has `Node`
-- (a tree of fields), the state, `fail`, `expect`, `peek` and `init`; Compose/Fields has what the methods
-- do to the fields of nodes, with `anchor` and `unwritten`; Compose/Composer `node`, `alias`, `scalar`,
-- `sequence`, `mapping`, `document` and `parse`, on top of Parser and Resolve, and the loop of a caller.
-- A node is known by the count of the nodes made before it, its address; an alias holds the address of
-- the node it points to. The children of a node are collected in reverse order, which is undone when
-- the node is complete. A nil byte slice is the empty one. Compose/Spelling is the specification: the
-- events that a tree stands for; Compose/Anchors says which anchors the events have given. The other
-- modules of Compose go from the methods to whole streams.
--
-- Scanner is scannerc.go, as far as it keeps levels. Scanner/State has the fields of `yaml_parser_t`
-- for them, `skip`, and `yaml_insert_token` of apic.go; Scanner/Levels the functions from
-- `yaml_simple_key_is_valid` to `yaml_parser_unroll_indent`; Scanner/Fetch those that produce the tokens
-- of the stream, of the document markers and of the indicators, named as in the source without
-- `yaml_parser_`. An indentation is one more than in the source, where the first is -1. Scanner/Content
-- has the functions that produce a directive, an anchor, an alias, a tag, a quoted or a plain scalar.
-- The other modules of Scanner are about these functions.
--
-- Lexer is the scans of scannerc.go over the buffer. Lexer/Cursor has the fields of `yaml_parser_t` that
-- they move, with `cache`, `skip`, `skip_line`, `read` and `read_line`, and the loops; Lexer/Names,
-- Directives, Quoted and Plain have the functions named `yaml_parser_scan_...`, and Lexer/Folding what
-- quoted and plain scalars share. A buffer holds the characters up to the end of the input or to the
-- place where the reader fails, so that `cache` moves nothing. `int` has 64 bits, as a code of eight
-- hexadecimal digits needs. The other modules of Lexer are about these functions.
--
-- Emitter is emitterc.go, as far as it puts characters into the output. Emitter/Output has the output
-- fields of `yaml_emitter_t`, `yaml_emitter_flush` of writerc.go, and `put`, `put_break`, `write`,
-- `write_all`, `write_break`, `write_indent` and `write_indicator`; Emitter/Quoted has the function
-- that writes a scalar in single quotes. The write handler is a field, as in the source: a function
-- that is given what was written before and what is to be written, and tells whether it takes it. The
-- other modules of Emitter are about what is added to the output, and how the scanner reads it.
--
-- Bounds and fuel. The loop over document end indicators and that over directives take as fuel the
-- tokens that are left; each round skips one, and running out is a panic. `run` takes the number of
-- calls; Parser/Valid has the measure by which enough of them are counted: eight for each token and
-- the weights of the states. `fill` takes the rounds of the loop; running out with bytes left is a
-- panic, and a round consumes a character. `loop` takes a round for each unread character and one
-- more; the loops of the emitter take a round for each byte. Bytes and characters are natural numbers,
-- with `% 2 ^ 8` where the source converts to a byte; positions and counts are not bounded. The digits
-- of a number take as fuel the number plus one. `parse` of Compose takes the depth of the nodes as
-- fuel, and its loops and `read_documents` the number of their rounds; the number of events is enough
-- for all.
--
-- Not modelled. Of the scanner, the scan of block scalars, the dispatch on the next character, the
-- comments and `simple_keys_by_tok` as the lookahead reads it are not modelled; so to the parser
-- the scanner is its environment: `tokens` lists the tokens that its calls will make available,
-- each with the comments queued meanwhile, and `fetch_error` is the error that it sets when they
-- end. Of the reader, the refill of the raw buffer from the read handler, the compaction of the
-- working buffer and its padding with NUL are left out. Of the emitter, the state machine, the analysis
-- of scalars, the other styles and the comments are left out. The decoder, the encoder and the order
-- of keys are not modelled.
pub mod Base
pub mod Types
pub mod Parser
pub mod Chars
pub mod Reader
pub mod Origin
pub mod Resolve
pub mod Compose
pub mod Scanner
pub mod Lexer
pub mod Emitter
