-- ===== src/Server.antt =====
-- server/: the worker that serves one client.
pub mod Disk
pub mod Requests
pub mod Transfers
pub mod Loop
