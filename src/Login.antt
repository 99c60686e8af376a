-- ===== src/Login.antt =====
-- The login, which agrees on a session key: the functions of security/, and both sides.
pub mod Crypto
pub mod Ecdh
pub mod Digests
pub mod Cbc
pub mod Sizes
pub mod Inversion
pub mod Steps
pub mod Worker
pub mod Client
