-- ===== src/Lib.antt =====
-- Penguin Redis: the decisions of the client that lose data, credentials or trust when wrong.
--
-- The program is a Redis client of many crates. A request (crates/pr-core/src/request.rs) is
-- built from a line that the REPL splits (crates/pr-repl/src/quoting.rs); an agent's or a batch's
-- request is approved by a token bound to its bytes and to the server's identity
-- (crates/pr-security/src/approval.rs, crates/pr-security/src/trust.rs); the connection's state
-- follows the commands sent (crates/pr-core/src/session.rs), and in a cluster the keys choose the
-- node (crates/pr-routing/src/slot.rs); the outcome of a request and the interrupts decide the
-- exit code (crates/pr-core/src/outcome.rs, crates/pr-core/src/signal.rs). Replies are decoded as
-- their bytes arrive (crates/pr-protocol/src/decoder.rs), or as events where a value is too large
-- to hold (crates/pr-protocol/src/stream.rs), and kept in a bounded store, and pushed messages in
-- a ring buffer (crates/pr-results/src/store.rs, crates/pr-results/src/subscription.rs). The line
-- is edited in a buffer with undo (crates/pr-repl/src/buffer.rs), and kept in a history from
-- which secrets are left out (crates/pr-repl/src/history.rs). What an agent may do without a
-- person is decided by policy rules (crates/pr-mcp/src/policy.rs).
--
-- Files:
--   Prelude.antt           shared names; Tests, Lists, Bytes, Words, Decimal and Options below it
--   Core/Request.antt      CommandRequest, Effects; Canonical: the canonical bytes
--   Core/Session.antt      SessionState: observe_command, may_probe, expect_reply_for_next,
--                          note_queue_error, on_disconnect; Runs, Epochs, Transactions, Replies
--   Core/Outcome.antt      ExecutionOutcome, exit_code; Doubt, Success: its codes
--   Core/Signal.antt       Interrupts::on and activity; Presses: runs of interrupts
--   Mcp/Glob.antt          glob_bytes, class; Meaning: what a match means; Rounds: its fuel
--   Mcp/Policy.antt        PolicyRule::may_authorise; Grants
--   Protocol/Value.antt    Value, depth, leaf_count
--   Protocol/Scalars.antt  parse_i64, parse_len, validate_double, validate_bignum
--   Protocol/Decoder.antt  parse_value, line, Decoder::feed and decode; Parsers and Stable: what
--                          more bytes change; Draining and Feeding: pieces of a stream; Ends;
--                          Yields and Depth: what holds of a decoded value; Printer, Pieces,
--                          Kinds and Printed: values read back
--   Protocol/Reassembler.antt  Event, Reassembler::push
--   Protocol/Streaming.antt  Streamer, its state: new, feed, close_completed, continue_payload,
--                          chunk_header
--   Protocol/Streamer.antt  step, next_value, open_aggregate, open_scalar; decode_by_streaming and
--                          decode_by_value; Work, Progress and Runs: its fuel; Limits and Kept: its
--                          bounds;
--                          Inversions, Bulks, Listed, Tags: what it takes for the decoder to be
--                          done; Payloads, Chunks, Scalars, Children, Terminated, Pairs,
--                          Aggregates, Agrees: the streamer on what the decoder reads
--   Repl/Text.antt         a text by characters and offsets, prev_grapheme, next_grapheme; Parts,
--                          Graphemes, Joiners
--   Repl/Buffer.antt       LineBuffer: edits, groups, undo, redo; Edits, Reversal, Safety, Calls,
--                          History
--   Repl/Redaction.antt    redact, has_placeholder, for_environment; Hidden
--   Repl/History.antt      History: record, recent, search, clear, prune; Origins: where entries
--                          come from; Recall: a kept line split again
--   Repl/Quoting.antt      split_args, is_incomplete, quote; Step, Total, Spans, Quoted, RoundTrip
--   Results/Store.antt     ResultStore: put, get, invalidate_scope, and oversize_action; Items,
--                          Invariant, Put, Keeps, Tracks, History, Answers, Scopes, Oversize
--   Results/Subscription.antt  Subscription::push, evict, is_complete; Loops, Accounts, History
--   Security/Trust.antt    TrustIdentity, its hashes, compare, RotationWindow, KnownNodes;
--                          Binding, Rotation, Nodes
--   Security/Approval.antt ApprovalToken: for_request, authorise, and preview; Guards, Preview
--   Routing/Slot.antt      crc16, hash_tag, slot_for, same_slot; Tags
--   Routing/Redirect.antt  parse_redirect; Printed
-- An Examples.antt beside a component holds its tests and witnesses.
--
-- A component's file is the model: a record for each struct, a data type for each enum, and a
-- function for each method, which takes the state and returns it with the result. A loop body and
-- a match arm that are long are functions of their own.
--
-- Numbers are natural numbers; a `u64`, `u32` or `usize` keeps the wrap-around of a release build
-- at each addition that can reach it. A `String`, a `Bytes` and a `Vec<u8>` are lists of bytes;
-- the text of the line buffer and of a redirect is a list of characters. A hash map is an
-- association list in the order of insertion.
--
-- Bounds and fuel: the loops of `split_args` get one round more than the line has bytes; those of
-- `Subscription::push` one more than there are messages. Both models return `none` if that were
-- too little. The two loops of the decoder's streamed forms get one round more than there are
-- bytes left, since each takes a byte; `out_of_fuel` would say that it was too little. A number
-- is printed with at most 20 digits, a port with at most 5. A call of the streamer's `step`, and
-- the loop around it, get one round more than `work`, four times the bytes left with the events
-- queued and the aggregates open, which every move makes less; with too little, `step` would be
-- `exhausted`. The loop of `glob_bytes` gets a turn over the pattern for each byte of the key,
-- and one more.
--
-- Parameters: `blake3` (the hash of what the hasher was fed, in hexadecimal), of which nothing is
-- assumed, `message_size` (the size of a `Message` in memory), `encode` and `decode`
-- (`serde_json` on a list of strings: what is written is read back), `upper_text` (lossy decoding
-- and `to_uppercase`, of which nothing is assumed), and `to_lossy` (the standard library's lossy
-- UTF-8 decoding, of which nothing is assumed).
--
-- Not modelled: the MCP server, the catalog, the search, the broker of background requests,
-- profiles and JSON documents, the errors of SQLite; terminal, transport, TLS, SSH and rendering,
-- which are input and output; texts for people (`SafeText`, `Display`, the messages of verdicts);
-- and lossy UTF-8 decoding, which is the standard library's.
mod Prelude
pub mod Core
pub mod Protocol
pub mod Mcp
pub mod Repl
pub mod Results
pub mod Routing
pub mod Security
