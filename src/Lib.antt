-- ===== src/Lib.antt =====
-- A verification library for the C++ client SDK of SessionGW, the session gateway of Exasol.
--
-- A client opens a session over a web socket. Each call of `Session` writes a payload, sends it in a
-- frame with the id of the request, waits for the frame that answers it, and reads the payload of
-- the answer. Rows go to the server as native write batches, which the caller builds, and come back
-- as Arrow batches or as native read batches, which are validated against the schema of the cursor.
--
-- The files, and the code that they model (paths from the root of the repository):
--   Base            what the others share: lists, bytes and bits on native numbers, outcomes
--                   (`Result`: a value, a thrown error, or an access out of range, which C++ leaves
--                   undefined), actions on an object (`Action`), outcomes without faults (`Judged`).
--   Errors          include/sessiongw/errors.hpp, src/errors.cpp.
--   Capabilities    include/sessiongw/capabilities.hpp, src/capabilities.cpp, src/client.cpp.
--   Frame           include/sessiongw/frame.hpp, src/frame.cpp: `encodeFrame` (Encode) and
--                   `decodeFrame` (Decode), stores into a vector and loads at an offset; the layout
--                   of a frame, which Layout writes down, is what both are compared with.
--   WriteBatch      include/sessiongw/native_write_batch.hpp, src/native_write_batch.cpp: the builder
--                   (Builder) on the vector that it shares with its caller, the typed columns
--                   (Columns), dates, decimals and timestamps (Values).
--   Session         include/sessiongw/session.hpp, src/session.cpp: writers and readers (Codec), the
--                   calls of Arrow (Schema), the validation of a native read batch (ReadBatch),
--                   `Session::Impl` and its requests (Request), the operations (Cursors, Writes), and
--                   sequences of calls (Calls). Traverse holds what all operations have in common.
--   WebSocket       include/sessiongw/websocket.hpp, src/websocket.cpp: JSON texts (Json), masking
--                   (Masking), `transportRead`, `transportWrite` and `close` (Transport), what is sent
--                   (Send), `receiveBinary` (Receive, Turns), the operations that a session uses
--                   (Connection), and `connectAndLogin` (Login, Login.Upgrade). Streams says what is
--                   relied on of the system, Script what a server's frames are; Tape is a system that
--                   behaves so. Disposed says what an error leaves of a connection.
--   CApi            include/sessiongw/c_api.h, src/c_api.cpp: the index of a native read batch, the
--                   escaping of SQL text, `protect` and the last error of a thread; what the exported
--                   functions are given (Arguments), handles and pointers (Handles), the functions on
--                   a session (Functions, and Exports as values), what is read of a handle (Views,
--                   Statistics), connecting and `sessiongw_c_execute_sql` (Execute). Boundary has the
--                   rules for a function that stores once, at its end.
--
-- Numbers are natural numbers; a word of w bits is one below 2 ^ w, and where the source wraps around
-- or casts, the remainder is written out. Bytes are numbers, a vector or a span is a list, a shared
-- pointer that can be null is an option. Loops are recursions on a list or on the number of rounds,
-- so they need no fuel, with these exceptions: the loops that move bytes get as fuel the bytes that
-- are to be moved, since a call moves one at least; `receiveBinary` gets one round more than the peer
-- has bytes to deliver in the run, since a round takes two; the upgrade gets 16 KiB and two bytes,
-- since it is refused behind 16 KiB. A loop that ran out of fuel would be a fault, and the theorems on
-- termination show that none does.
--
-- Not modelled: running out of memory; the text of Arrow's status in a message; a session that was
-- moved away. Arrow is a parameter (the record `Arrow` of Session), of which nothing is assumed. The
-- session takes its connection as an interface, the record `Connection` of Session.Request; its
-- theorems assume that the operations return or throw an error of a category of the protocol
-- (`IsTransport`), which WebSocket.Attached shows of the web socket. The calls of the system and of
-- OpenSSL are parameters (`Platform` of WebSocket and `Gate` of WebSocket.Login): a send or a receive
-- moves a part of what it is asked for, and the bytes that the peer will deliver in a run are a finite
-- list: a peer that sends pings or empty fragments without end, which keeps `receiveBinary` in its
-- loop, is not covered, and that the loops over what is received end is shown for a finite list only.
-- The release of what a connection holds is its handles and the calls of `close` on them; what the
-- log-in allocates of OpenSSL besides is freed as the source does, and of that nothing is shown. The
-- text that `base64Encode` finds in its BIO is what the parameter says. The BIO that suppresses SIGPIPE, the error queue of OpenSSL, the moves of a connection, the
-- functions that destroy a handle, the tools, the tests and the examples of the repository are left
-- out.
pub mod Base
pub mod CApi
pub mod Capabilities
pub mod Errors
pub mod Frame
pub mod Session
pub mod WebSocket
pub mod WriteBatch
