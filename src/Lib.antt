-- ===== src/Lib.antt =====
-- drogonR: an R package that serves HTTP and WebSocket traffic through the Drogon framework.
--
-- The program. Drogon's I/O threads accept requests and WebSocket events and never touch R. They put
-- them on queues (src/request_queue.cpp, src/ws_session.cpp, src/ws_client.cpp) and write a byte to
-- one pipe, which wakes the main R thread. There runDispatcher (src/r_dispatcher.cpp) drains the
-- queues, calls the R handlers and hooks, and answers, or opens a stream whose chunks are pumped one
-- at a time (src/stream_session.cpp). Native handlers, static files and rate limits are served
-- without R (src/drogon_server.cpp). src/json_writer.cpp writes R values as JSON.
--
-- The files.
-- Prelude: shared names, lists over native numbers, tables keyed by a number, byte strings, R values
--   as the C++ code sees them (Sexp), and the objects kept from R's garbage collector (Preserved).
-- Json: src/json_writer.cpp. Escape and Writer hold the code; Document is the tree that a value
--   stands for and its text, Refinement relates the two, Reader is an independent JSON reader, and
--   RoundTrip joins them.
-- Queue: src/request_queue.cpp and the POSIX half of src/socket_compat.h. Laws is about the queue,
--   Wakeup about the pipe under all interleavings with runDispatcher.
-- Static: escapeRegex, resolveSafely and installStaticMount of src/drogon_server.cpp. FilePath is the
--   part of std::filesystem::path on POSIX that they use, Resolve the code, Stretches, Safety and
--   Completeness the proofs.
-- Dispatch: src/r_dispatcher.cpp. Request builds R's request list, Reply the response (buildResponse,
--   parseStreamHeaders), Dispatch itself is the loop over the drained requests, and Turn the whole of
--   runDispatcher. Watch is the wake pipe's life: ensureDispatcherRunning and shutdownDispatcher of
--   src/drogon_server.cpp, registerDispatcherFd and drogonR_init_later.
-- Server: src/drogon_server.cpp. Limits is buildLimitersForPath and checkRateLimits, Tables the
--   registrations and drogonR_clear_routes, Tables/RateLimits drogonR_register_rate_limits, Handlers
--   what runs on the I/O threads and the native workers, NativeStream the session of a native stream
--   and the worker that runs its backend, and Lifecycle drogonR_server_start, drogonR_server_stop and
--   drogonR_reset_fork_state.
-- Stream: src/stream_session.cpp. Stream holds the state and the operations, Pump pumpStreamMain,
--   Steps the step relation, and Tidy, Store, Middle, Mild and Runs the invariants.
-- Ws: src/ws_session.cpp. Session is one connection, Rooms the rooms, Controller the three hooks of
--   RWebSocketController, Pump drainWsEvents, Reaper the timer, Routes the route table, and Counters,
--   Slots, Traffic and Capacity the concurrency cap. Reaper/Scan is about one scan, Reaper/Laws about
--   the interval, and Race about sends and closes of several threads on one connection.
--   Rooms/Refinement relates the rooms to a relation of ids and names, Entry is drogonR_register_ws_cpp
--   and the checks of the other entry points.
-- Client: src/ws_client.cpp. Client holds the state, Connect drogonR_ws_connect and the callbacks that
--   it gives to Drogon, Calls sending, closing and shutdownWsClients, Pump drainWsClientEvents.
--   Invariant has the steps and the induction over them, Laws, Runs and Closing use it.
-- Tests: concrete inputs.
--
-- How code and model correspond. Shared state is a record, an operation a function on it, and what
-- the code reads from outside (what R answers, the clock, whether a connection is open, what a C++
-- handler calls) is an argument. A function keeps the source's name in lower case. What is handed to
-- a loop of Drogon (queueInLoop) is appended to a list of tasks, and a call of R or of a backend to a
-- log. Threads are step relations: a step is what the code does under a lock or in one atomic
-- operation. Rf_error and refusals are none or false.
--
-- Bounds. decimal prints an int with fuel 10, the number of its digits. The reader has fuel twice
-- the length of the text, which RoundTrip shows to be enough, and the loop that empties the pipe
-- one read more than there are bytes. Every other recursion is on a list or a value. Ids and
-- counters are natural numbers: a 64-bit id does not wrap in any run, and a live counter is
-- bounded by its sessions and connects.
--
-- Not modelled. Drogon, Trantor, JsonCpp, wepoll and mman-win32 are other projects' code; of
-- Drogon's limiters only whether they allow a request is used, as an argument. The server is that
-- of Linux: the Windows half of src/socket_compat.h is left out. A handler of R that starts or
-- stops the server, or that runs the callbacks of later itself, is not followed. A byte that is
-- written to the wake pipe while it is emptied counts as written before. What a read behind an
-- empty R vector finds is an argument, and what follows std::terminate means nothing. The
-- registration of entry points (src/r_bridge.cpp), drogonR_has_ssl, which is a build flag, and the
-- R code are left out.
mod Prelude
pub mod Json
pub mod Queue
pub mod Static
pub mod Dispatch
pub mod Server
pub mod Stream
pub mod Ws
pub mod Client
mod Tests
