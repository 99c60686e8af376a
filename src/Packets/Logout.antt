-- ===== src/Packets/Logout.antt =====
-- packets/logout.h and packets/logout.cpp.
pub mod M1
pub mod Ack
