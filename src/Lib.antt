-- ===== src/Lib.antt =====
-- framewalk: a verified model of the GDB/MI client core.
--
-- The program drives GDB over its machine interface. Bytes from GDB are cut into lines by the wire
-- crate, each line is parsed into a record by the codec crate, and the protocol crate's sans-IO
-- connection classifies every record: it answers pending commands, updates its registries of
-- threads, frames, breakpoints, variable objects and features, and queues events for the caller.
-- In the other direction commands are encoded into lines and queued as outbound bytes. The MCP server
-- submits structured commands and, behind a guard, raw lines of its clients. The transport crate puts
-- the connection under a lock, between a reader task, a writer task and the callers that wait.
--
-- Files and the code that they model, by crate:
-- - Prelude and its children: shared names, Boolean tests and list functions on the native numbers,
--   byte strings, and the ordered maps of the standard library as association lists.
-- - Wire/Framer: crates/framewalk-mi-wire/src/framer.rs and frame.rs. A framer is its buffer and
--   read position; push and pop are the methods, pop returns the frame and the framer after it.
--   Stream describes the frames of a whole byte stream, Chunks runs of pushes and pops, Shape the
--   lines and the terminator.
-- - Codec/Ast, Error, Command: ast.rs, error.rs and command.rs of crates/framewalk-mi-codec/src.
-- - Codec/Cursor, CString, Value, Record: cursor.rs, cstring.rs, value.rs, and mod.rs, result.rs,
--   async_rec.rs and stream.rs of crates/framewalk-mi-codec/src/parse. A parser is a function of
--   the cursor; Utf8 is String::from_utf8 of the standard library, written out.
-- - Codec/Encode: crates/framewalk-mi-codec/src/encode. Each function returns what it appends.
-- - Protocol/View, State, Token, Pending, Event: results_view.rs, state, token.rs, pending.rs, and
--   event.rs, command.rs, error.rs and version.rs of crates/framewalk-mi-protocol/src.
-- - Protocol/Dispatch and Connection: connection.rs. Dispatch holds the connection's fields and the
--   routing of one record, Connection the rest of its methods. A method that changes the connection returns the changed
--   one; classify_all and parsed_all are the two phases of receive_bytes. Session holds every way
--   to drive a connection, as a relation.
-- - Transport/Journal, Shared, Pump, Handle: shared.rs, pump.rs and handle.rs of
--   crates/framewalk-mi-transport/src. A function returns the state that it leaves and the list of what it
--   does with the one-shot senders, the broadcast channel and the notifier of tokio, which stand
--   outside the repository. Journal/History and Queries compare the journal with the whole history.
-- - Transport/World: calls of submit, the reader task and the synthetic log interleaved. A step is a stretch
--   of code that no other task interrupts where it matters, as the locks of handle.rs and pump.rs delimit it.
-- - Transport/Subprocess: subprocess/mod.rs and config.rs of crates/framewalk-mi-transport/src, the replies an argument.
-- - Transport/Wait: next_stop_after of handle.rs, step by step beside the writers of the journal. tokio's Notify is
--   a count of the calls of notify_waiters.
-- - Protocol/MiTypes: mi_types.rs of crates/framewalk-mi-protocol/src.
-- - Mcp/Types, Mcp/Tools: types and tools of crates/framewalk-mcp/src. A data type is a block of tools, its
--   function the commands that they submit; Catalog puts the blocks together with tools/mod.rs, tool_catalog.rs and
--   the modes of server.rs.
-- - Mcp/Target: the selection of a remote target in server_helpers.rs and tools/operator.rs. The replies to
--   the submissions are arguments, the actions and the reply to the client are results.
-- - Mcp/Observe: the views of events and target in server_helpers.rs. Each read of the journal has a
--   journal of its own, as each takes the lock anew. Report has what a client is to learn of each event,
--   apart from the code, and how it reads the summaries; the reason and exit code of a stop are left out.
-- - Mcp/RawGuard: crates/framewalk-mcp/src/raw_guard.rs, the decision on raw commands. Lines puts it
--   together with submit_raw of the connection, as crates/framewalk-mcp/src/server.rs does.
--
-- Numbers: bytes are natural numbers, tokens are kept below 2^64 by the tests of the source, the
-- escapes compute modulo 2^8 and 2^16 where the source casts.
--
-- Fuel: the value parser recurses on fuel of four units for each byte that is left and four more,
-- the loops over results on the length of the input and one more, the loop of receive_bytes on the
-- bytes pending and one more, the loop of polls of a chunk on its events and one more. Each is proved
-- to be enough.
--
-- Not modelled: formatting of errors and read-only iterators; of the transport the channels, the writer and stderr tasks, the clock of the timeouts,
-- shutdown and the spawn of GDB; of the MCP server the handlers of rmcp, which stand outside the
-- repository, the rendering as JSON, the texts of errors and advisories, the static resources, the vmlinux probe,
-- the command line, and the Scheme host with its embedded engine, which is outside the repository too.
pub mod Prelude
pub mod Wire
pub mod Codec
pub mod Protocol
pub mod Transport
pub mod Mcp
