-- ===== src/Packets/Download.antt =====
-- packets/download.h and packets/download.cpp.
pub mod M1
pub mod Ack
pub mod M2
