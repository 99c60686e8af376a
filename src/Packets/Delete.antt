-- ===== src/Packets/Delete.antt =====
-- packets/delete.h and packets/delete.cpp.
pub mod M1
pub mod Ack
