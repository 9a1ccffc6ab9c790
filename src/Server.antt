-- ===== src/Server.antt =====
-- src/drogon_server.cpp: the tables of the server, the limits of its routes, its handlers off the
-- main thread, and its start and stop.
pub mod Limits
pub mod Tables
pub mod Handlers
pub mod NativeStream
pub mod Lifecycle
