-- ===== src/Chunks.antt =====
-- The transfer of files in chunks, which the worker and the client share.
pub mod Sizes
pub mod Send
pub mod Receive
