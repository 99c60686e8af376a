-- ===== src/Packets/Listing.antt =====
-- packets/list.h and packets/list.cpp.
pub mod M1
pub mod M2
pub mod M3
pub mod Names
