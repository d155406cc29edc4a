-- ===== src/Lib.antt =====
-- Verification of LSParrot, a PHP extension that runs a language server (C sources under ext/).
--
-- The program. The server reads framed JSON-RPC messages from stdin, queues them, and serves them one
-- at a time: document notifications change the table of open documents, requests are dispatched to
-- features that read it, and analyzers run in the background. The modules follow the C files:
--
-- - Base: shared names; byte strings (zend_string), string-keyed tables (HashTable) as association
--   lists in insertion order, signed integers (zend_long) and decimal printing.
-- - Zval: PHP values and the readers of ext/lsp_internal.h (lsp_array_find and the others).
-- - Uri: URIs and paths, ext/lsp_server_core.c (lsp_uri_to_path, lsp_uri_from_path).
-- - Position: byte offsets and UTF-16 positions, ext/lsp_server_core.c (lsp_offset_at) and
--   ext/lsp_server_symbols.c (lsp_offset_to_position).
-- - Transport: ext/lsp_server_documents.c from the receive buffer to lsp_protocol_next_message. The
--   record Transport holds the file-level variables lsp_rx_... , lsp_pending_... and lsp_cancelled_ids.
--   Header and Frame take frames off the buffer, Queue is the message queue, Next the waiting loop.
-- - Server: the documents and caches of lsp_server. Caches and Documents are the document half of
--   ext/lsp_server_documents.c, Sync the document notifications, Routes the dispatch table and Loop the
--   requests and the loop of ext/lsp_server_protocol.c. Fresh, Invariant and LoopFresh prove the
--   invariant of the documents, Changes, Params and Editor the refinement of the editor's view, Evict what
--   is left of the caches, Lifecycle the replies and the states of the loop, Written what is written for
--   a reply (lsp_protocol_respond and lsp_protocol_error), and Cancelled the cancelled requests.
-- - Symbols: the arena of the symbol index, ext/lsp_server_symbols.c. Records is the walk over the arena,
--   Arena the operations, Remove the removal of a file. The proofs are over a list of records that the
--   arena holds: Encoding, Adding, Rebuild, Lookup, ClassLike and Earliest, and for a removal Removing,
--   Burying and Removed. Segments are the sorted segments of the names, Search and Marked under it what
--   the binary search for a prefix marks (lsp_symbol_match_prefix).
-- - Scan: words at an offset (ext/lsp_server_core.c, lsp_prefix_at and lsp_word_at), labels that
--   match a prefix (lsp_matches_prefix_string, and in Fuzzy lsp_symbol_fuzzy_match of
--   ext/lsp_server_symbols.c) and the bracket that matches a closing one (ext/lsp_server_phpdoc.c).
-- - Tokens: the tokens of the PHP lexer as the features read them, with the ids that they distinguish.
-- - Semantic: semantic tokens, ext/lsp_server_semantic_tokens.c. Modifiers and Classify find the type of a
--   token, Collect is the loop and the delta encoding, Edits the edit between two replies, Replies the
--   requests and the cache. Decode and Range prove what a client decodes, Splice what an edit does,
--   Session, Agreement and Client the refinement of what a client holds.
-- - Formatting: ext/lsp_server_formatting.c. Lines, Plan and Emit follow the passes of the formatter,
--   Requests the two requests; the file itself has the options. Search proves the binary search, Split
--   and Reflow the cutting and writing of lines, Contents what a reply changes.
-- - Completion: the labels and scores of completion items and, in Dedup, their deduplication,
--   ext/lsp_server_symbols.c. Positions and Buckets prove that the buckets change nothing.
-- - Imports: the organisation of imports, ext/lsp_server_refactor.c (lsp_refactor_organize_imports_edit).
--   Sorted is about the insertion of a line, Scan about the whole text.
-- - Options: the options at the start and their change at run time, ext/lsp_server_core.c
--   (lsp_options_from_zval, lsp_options_apply_runtime). Ranges and Valid prove their ranges.
--
-- Interaction. Server.Loop takes messages from Transport.Next and asks Transport.Queue whether a
-- request is cancelled; Server.Sync asks it whether a change is superseded. Handlers call
-- Server.Documents, which uses Uri. What a handler asks of a component that is not modelled is
-- recorded in Server.effects, in the order of the calls. Semantic and Formatting read a document of
-- Server.Document and its parse result; Formatting gives its edits as ranges of Position.
--
-- Parameters. JSON decoding (decode) and encoding (encode), the PHP parser (parse), the data derived
-- from a text (derive), the file system (read_file), the features (run) and the handlers of
-- configuration and workspace folders are arguments; the invariant of the loop has the hypothesis that
-- the last three keep it. The numbers of the token ids (kind_of), which the PHP build generates, and
-- the tokens of a text (tokenize) are arguments of Semantic and Formatting; strtod and the product
-- with a factor (scaled) of Options.Runtime.
--
-- Bounds and fuel. print_nat has 20 digits, enough below 2^64. The loop that drains frames has one
-- round more than there are unread bytes, which Transport.Progress shows to be enough. server_loop
-- runs for a given number of rounds and has the result running where they are used up; next_message
-- runs over the list of what the waits bring. The binary search of the formatter has the number of
-- lines as fuel, which Formatting.Search shows to be enough, and that of Symbols.Segments the number
-- of segments. Loops over tokens count what is left of them. size_t, uint32_t and uint64_t arithmetic
-- is written with its wrap-around where the code can reach it: in the frame length, in the arena's
-- size test and its counters.
--
-- Not modelled: the _WIN32 branches, poll and read, background jobs and signals beyond the request to
-- terminate, performance counters, the analyzers, the collection of completion items, hover and the
-- other features, and the bindings to the Zend engine.
mod Base
pub mod Uri
pub mod Position
pub mod Zval
pub mod Transport
pub mod Server
pub mod Symbols
pub mod Scan
pub mod Semantic
pub mod Tokens
pub mod Formatting
pub mod Imports
pub mod Completion
pub mod Options
