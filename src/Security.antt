-- ===== src/Security.antt =====
-- security/: the cipher, the counters and the login messages.
pub mod Evp
pub mod Ccm
pub mod Counter
pub mod Login
