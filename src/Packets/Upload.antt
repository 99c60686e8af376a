-- ===== src/Packets/Upload.antt =====
-- packets/upload.h and packets/upload.cpp.
pub mod M1
pub mod Ack
pub mod M2
