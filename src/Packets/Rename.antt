-- ===== src/Packets/Rename.antt =====
-- packets/rename.h and packets/rename.cpp.
pub mod M1
pub mod Ack
