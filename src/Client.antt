-- ===== src/Client.antt =====
-- client/: the program that a user runs.
pub mod Messages
pub mod Requests
pub mod Transfers
pub mod Menu
