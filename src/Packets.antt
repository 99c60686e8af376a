-- ===== src/Packets.antt =====
-- The messages of packets/, one module for each class.
pub mod Codes
pub mod Upload
pub mod Download
pub mod Listing
pub mod Rename
pub mod Delete
pub mod Logout
pub mod Wrapper
