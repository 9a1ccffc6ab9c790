-- ===== src/Tests.antt =====
-- Concrete inputs at which the theorems apply, file by file.
mod Json
mod Paths
mod Requests
mod Streams
mod Sockets
mod Tables
mod Clients
mod Lifecycle
mod Native
