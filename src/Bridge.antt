-- ===== src/Bridge.antt =====
-- The two Pageant transports of pageant/run_windows.go: the shared-memory window message and the
-- named pipe, over one way to answer a request.
pub mod Query
pub mod CopyData
pub mod Pipe
pub mod Clients
